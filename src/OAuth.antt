-- ===== src/OAuth.antt =====
-- `OAuthStateCodec` of src/postara/oauth.py: what a user who is sent to a provider brings back. Bytes
-- are texts, as in `Security.Library`.
pub mod State
pub mod Google
use postara.Errors.{value_error, key_error, type_error, oauth_state_error}
use postara.Exec.{Outcome, returned, raised}
use postara.Prelude.{
  ℕ, String, Bool, false, not, Option, none, some, leb, is_some, ◌≡◌, ◌||◌, if◌then◌else◌, ◌==◌,
  nat_eq, string_eq,
}
use Prim.Native.Char.{code}
use postara.Text.{is_ascii, ◌<>◌}
use postara.Security
use postara.Security.{Library, decode_key_material}
use postara.Audit.{
  Value, Fields, Python, null, boolean, number, text, instant, array, object, end, field, lookup,
}
use postara.Providers.Decimal.{int}
use postara.Dict
use postara.Dict.{Dict}

pub record OAuthState : Type 0 where
  pub version : ℕ
  pub nonce : String
  pub user_id : ℕ
  pub provider : String
  pub name : String
  pub expires_at : ℕ

-- The dictionary that `sign` writes, its keys sorted as `_json_bytes` sorts them.
unfoldable pub payload : Python → OAuthState → Value
payload p s = object (
    field "expires_at" (text (p.isoformat s.expires_at)) (
      field "name" (text s.name) (
        field "nonce" (text s.nonce) (
          field "provider" (text s.provider)
            (field "user_id" (number s.user_id) (field "version" (number s.version) end))))))

unfoldable pub has_dot : String → Bool
has_dot String.[] = false
has_dot (String.◌∷◌ c s) = (code c == b'.') || has_dot s

-- `json` and `base64` as the codec calls them, `int` on text that is not ASCII, and `str` of a value
-- that is no text; `none` is an exception. Numbers below zero and fractions are left out.
pub record Codecs : Type 0 where
  pub python : Python
  pub dumps : Value → String
  pub loads : String → Option Value
  pub b64 : String → String
  pub unb64 : String → Option String
  pub int : String → Option ℕ
  pub str : Value → String
  pub loads-dumps : (s : OAuthState) → loads (dumps (payload python s)) ≡ some (payload python s)
  pub unb64-b64 : (s : String) → unb64 (b64 s) ≡ some s
  pub b64_plain : (s : String) → has_dot (b64 s) ≡ false

pub record OAuthStateCodec : Type 0 where
  pub lib : Library
  pub codecs : Codecs
  pub keys : Dict ℕ String
  pub active_version : ℕ

unfoldable pub is_active : OAuthStateCodec → Bool
is_active c = is_some (Dict.get c.keys c.active_version)

-- `raw_state.split(".", 1)` unpacked into two parts.
abbrev pub with_front : String → Option (String × String) → Option (String × String)
with_front c none = none
with_front c (some (a, b)) = some (c <> a, b)

unfoldable pub split_dot : String → Option (String × String)
split_dot String.[] = none
split_dot (String.◌∷◌ c s) =
    let rest = split_dot s in
    if code c == b'.' then some ("", s) else with_front (String.◌∷◌ c "") rest

abbrev pub fields_of : Value → Option Fields
fields_of (object fs) = some fs
fields_of _ = none

abbrev pub or_none {ℓ} : {A : Type ℓ} → Outcome A → Option A
or_none (raised e) = none
or_none (returned x) = some x

abbrev pub bind_option {ℓ κ} : {A : Type ℓ} {B : Type κ} → Option A → (A → Option B) → Option B
bind_option none f = none
bind_option (some x) f = f x

-- `payload.get("provider") != provider`
abbrev pub is_for : String → Option Value → Bool
is_for provider (some (text s)) = s == provider
is_for provider _ = false

module _ (c : OAuthStateCodec) where
  -- `_sign` under the key of a version.
  abbrev pub under_key : String → Outcome String → Outcome String
  under_key bytes (raised e) = raised e
  under_key bytes (returned key) = returned (c.lib.hmac_sha256 key bytes)

  unfoldable pub sign_bytes : String → String → Outcome String
  sign_bytes bytes key = under_key bytes (decode_key_material c.lib key)

  abbrev pub joined : String → Outcome String → Outcome String
  joined bytes (raised e) = raised e
  joined bytes (returned signature) =
      returned (c.codecs.b64 bytes <> ("." <> c.codecs.b64 signature))

  abbrev pub sign_with : String → Option String → Outcome String
  sign_with bytes none = raised key_error
  sign_with bytes (some key) = joined bytes (sign_bytes bytes key)

  -- The nonce is drawn by the caller.
  unfoldable pub sign : String → ℕ → String → String → ℕ → Outcome String
  sign nonce user_id provider name expires_at =
      sign_with
        (c.codecs.dumps (
          payload c.codecs.python (record {
            version = c.active_version;
            nonce = nonce;
            user_id = user_id;
            provider = provider;
            name = name;
            expires_at = expires_at;
          })))
        (Dict.get c.keys c.active_version)

  -- `int(value)`
  abbrev pub int_of : Value → Option ℕ
  int_of (number n) = some n
  int_of (boolean b) = some (if b then 1 else 0)
  int_of (text s) = if is_ascii s then int s else c.codecs.int s
  int_of _ = none

  abbrev pub str_of : Value → String
  str_of (text s) = s
  str_of value = c.codecs.str value

  abbrev pub int_entry : Option Value → Option ℕ
  int_entry none = none
  int_entry (some value) = int_of value

  -- The `try` of `verify`: the fields of the payload, their version, and the two signatures.
  unfoldable pub open_state : String → Option (Fields × ℕ × String × String)
  open_state raw_state = bind_option (split_dot raw_state) λ parts.
      bind_option (c.codecs.unb64 parts.0) λ bytes. bind_option (c.codecs.loads bytes) λ value.
        bind_option (fields_of value) λ fields.
          bind_option (int_entry (lookup "version" fields)) λ version.
            bind_option (Dict.get c.keys version) λ key.
              bind_option (or_none (sign_bytes bytes key)) λ expected.
                bind_option (c.codecs.unb64 parts.1)
                  λ actual. some (fields, version, expected, actual)

  -- `datetime.fromisoformat(payload["expires_at"])`
  abbrev pub expiry : Option Value → Outcome ℕ
  expiry none = raised key_error
  expiry (some (text s)) = elim (c.codecs.python.fromisoformat s) [
    | none ↦ raised value_error
    | some t ↦ returned t
  ]
  expiry (some _) = raised type_error

  -- An entry that is missing or no number: which exception it is, is not told apart here.
  abbrev pub state_of :
      ℕ → Option Value → Option ℕ → Option Value → Option Value → ℕ → Outcome OAuthState
  state_of version (some nonce) (some user_id) (some provider) (some name) expires_at =
      returned (record {
        version = version;
        nonce = str_of nonce;
        user_id = user_id;
        provider = str_of provider;
        name = str_of name;
        expires_at = expires_at;
      })
  state_of version _ _ _ _ expires_at = raised key_error

  abbrev pub unless_expired : ℕ → Fields → ℕ → Outcome ℕ → Outcome OAuthState
  unless_expired now fields version (raised e) = raised e
  unless_expired now fields version (returned expires_at) =
      if leb expires_at now
      then raised oauth_state_error
      else state_of version (lookup "nonce" fields) (int_entry (lookup "user_id" fields))
          (lookup "provider" fields) (lookup "name" fields) expires_at

  abbrev pub checked : ℕ → String → Option (Fields × ℕ × String × String) → Outcome OAuthState
  checked now provider none = raised oauth_state_error
  checked now provider (some (fields, version, expected, actual)) =
      if not (actual == expected)
      then raised oauth_state_error
      else if not (is_for provider (lookup "provider" fields))
      then raised oauth_state_error
      else unless_expired now fields version (expiry (lookup "expires_at" fields))

  unfoldable pub verify : ℕ → String → String → Outcome OAuthState
  verify now raw_state provider = checked now provider (open_state raw_state)
