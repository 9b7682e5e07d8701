-- ===== src/Security.antt =====
-- src/postara/security.py: tokens, their hashes, verification codes. Bytes are texts of characters
-- below 256. Randomness is an argument: the draws that `secrets.choice` makes.
pub mod Tokens
use postara.Errors.{token_format, value_error}
use postara.Exec.{Outcome, returned, raised}
use Prim.Native.Char.{Char, code}
use postara.Prelude.{
  ℕ, zero, suc, String, Bool, true, false, Option, none, some, ltb, leb, ◌%◌, ◌≡◌, ◌&&◌, ◌||◌,
  if◌then◌else◌, ◌==◌, nat_eq, string_eq,
}
use postara.Text.{pick, size, ◌<>◌}

-- What the code takes from `hashlib`, `hmac`, `base64`, `argon2` and `cryptography`. The digests
-- are functions and nothing more; the laws are the documented round trips.
pub record Library : Type 0 where
  pub sha256 : String → String
  pub hmac_sha256 : String → String → String
  pub urlsafe_b64decode : String → Option String
  pub argon2_hash : ℕ → String → String
  pub argon2_verify : String → String → Bool
  pub fernet_encrypt : String → ℕ → String → String
  pub fernet_decrypt : String → String → Option String
  pub argon2_right : (salt : ℕ) (raw : String) → argon2_verify (argon2_hash salt raw) raw ≡ true
  pub fernet_right :
      (key : String) (seed : ℕ) (plain : String)
      → fernet_decrypt key (fernet_encrypt key seed plain) ≡ some plain

-- The draws for the two random parts of a token.
pub record Draws : Type 0 where
  pub for_prefix : ℕ → ℕ
  pub for_secret : ℕ → ℕ

abbrev pub base62_alphabet : String
base62_alphabet = "0123456789abcdefghijklmnopqrstuvwxyzABCDEFGHIJKLMNOPQRSTUVWXYZ"

pub record ApiKeyParts : Type 0 where
  pub kind : String
  pub prefix : String
  pub secret : String

-- `secrets.choice(alphabet)`, at a draw.
unfoldable pub choice62 : ℕ → String → String
choice62 draw rest = pick base62_alphabet (draw % 62) rest

-- `_base62(length)`
unfoldable pub base62 : ℕ → (ℕ → ℕ) → String
base62 zero draws = ""
base62 (suc n) draws = choice62 (draws n) (base62 n draws)

abbrev pub is_kind : String → Bool
is_kind kind = kind == "live" || kind == "test"

unfoldable pub generate_api_key : String → Draws → Outcome String
generate_api_key kind d =
    if is_kind kind
    then returned ("pst_" <> kind <> "_" <> base62 8 d.for_prefix <> "." <> base62 32 d.for_secret)
    else raised value_error

unfoldable pub generate_session_token : Draws → String
generate_session_token d = "pst_session_" <> base62 8 d.for_prefix <> "." <> base62 48 d.for_secret

-- The rest of a text behind a fixed beginning.
unfoldable pub behind : String → String → Option String
behind String.[] s = some s
behind (String.◌∷◌ c p) String.[] = none
behind (String.◌∷◌ c p) (String.◌∷◌ d s) = if code c == code d then behind p s else none

unfoldable pub is_base62 : Char → Bool
is_base62 c =
    (leb b'0' (code c) && leb (code c) b'9')
    || (leb b'A' (code c) && leb (code c) b'Z')
    || (leb b'a' (code c) && leb (code c) b'z')

abbrev pub prepend : Char → Option (String × String) → Option (String × String)
prepend c none = none
prepend c (some (a, b)) = some (String.◌∷◌ c a, b)

-- `[0-9A-Za-z]{n}` at the beginning of a text, and the rest.
unfoldable pub take_base62 : ℕ → String → Option (String × String)
take_base62 zero s = some ("", s)
take_base62 (suc n) String.[] = none
take_base62 (suc n) (String.◌∷◌ c s) =
    let rest = prepend c (take_base62 n s) in if is_base62 c then rest else none

infixl 12 ◌then_take◌
abbrev pub ◌then_take◌ {ℓ κ} : {A : Type ℓ} {B : Type κ} → Option A → (A → Option B) → Option B
none then_take f = none
some a then_take f = f a

-- `(?P<prefix>[0-9A-Za-z]{8})\.(?P<secret>[0-9A-Za-z]{n})` over the whole of a text.
unfoldable pub match_parts : ℕ → String → Option (String × String)
match_parts n s = take_base62 8 s then_take λ head. behind "." head.1 then_take λ after.
    take_base62 n after then_take λ tail. if tail.1 == "" then some (head.0, tail.0) else none

abbrev pub with_kind : String → Option (String × String) → Option ApiKeyParts
with_kind kind none = none
with_kind kind (some (prefix, secret)) =
    some (record { kind = kind; prefix = prefix; secret = secret })

-- `TOKEN_RE.fullmatch`
unfoldable pub match_token : String → Option ApiKeyParts
match_token s = behind "pst_" s then_take λ rest. elim (behind "live_" rest) [
  | some after ↦ with_kind "live" (match_parts 32 after)
  | none ↦ behind "test_" rest then_take λ after. with_kind "test" (match_parts 32 after)
]

abbrev pub or_format_error {ℓ} : {A : Type ℓ} → Option A → Outcome A
or_format_error none = raised token_format
or_format_error (some a) = returned a

unfoldable pub parse_api_key : String → Outcome ApiKeyParts
parse_api_key raw_key = or_format_error (match_token raw_key)

unfoldable pub parse_session_token : String → Outcome (String × String)
parse_session_token raw_token =
    or_format_error (behind "pst_session_" raw_token then_take match_parts 48)

module _ (lib : Library) where
  unfoldable pub hash_password : ℕ → String → String
  hash_password salt raw_password = lib.argon2_hash salt raw_password

  unfoldable pub verify_password : String → String → Bool
  verify_password raw_password password_hash = lib.argon2_verify password_hash raw_password

  unfoldable pub hash_session_token : String → Outcome (String × String)
  hash_session_token raw_token = elim (parse_session_token raw_token) [
    | raised e ↦ raised e
    | returned parts ↦ returned (parts.0, lib.sha256 raw_token)
  ]

  unfoldable pub verify_session_token_hash : String → String → Bool
  verify_session_token_hash raw_token expected_hash = elim (hash_session_token raw_token) [
    | raised e ↦ false
    | returned (prefix, actual) ↦ actual == expected_hash
  ]

  abbrev pub decoded_or_raw : String → Option String → String
  decoded_or_raw raw none = raw
  decoded_or_raw raw (some decoded) = decoded

  -- The key as bytes; a text key is ASCII and stands for its bytes.
  unfoldable pub decode_key_material : String → Outcome String
  decode_key_material raw =
      let decoded = decoded_or_raw raw (lib.urlsafe_b64decode raw) in
      if ltb (size decoded) 32 then raised value_error else returned decoded

  abbrev keyed_digest : String → Outcome String → Outcome String
  keyed_digest message (raised e) = raised e
  keyed_digest message (returned key) = returned (lib.hmac_sha256 key message)

  unfoldable pub hash_api_key : String → String → Outcome String
  hash_api_key raw_key token_hash_key = elim (parse_api_key raw_key) [
    | raised e ↦ raised e
    | returned _ ↦ keyed_digest raw_key (decode_key_material token_hash_key)
  ]

  unfoldable pub verify_api_key_hash : String → String → String → Bool
  verify_api_key_hash raw_key expected_hash token_hash_key =
      elim (hash_api_key raw_key token_hash_key) [
        | raised e ↦ false
        | returned actual ↦ actual == expected_hash
      ]

  are_digits : ℕ → String → Bool
  are_digits zero String.[] = true
  are_digits (suc n) (String.◌∷◌ c s) = leb b'0' (code c) && leb (code c) b'9' && are_digits n s
  are_digits _ _ = false

  abbrev versioned : ℕ → Outcome String → Outcome (ℕ × String)
  versioned version (raised e) = raised e
  versioned version (returned digest) = returned (version, digest)

  unfoldable pub hash_verification_code : String → String → ℕ → Outcome (ℕ × String)
  unfolding are_digits
  hash_verification_code raw_code key version =
      if are_digits 6 raw_code
      then versioned version (keyed_digest raw_code (decode_key_material key))
      else raised token_format

  unfoldable pub verify_verification_code_hash : String → String → String → Bool
  verify_verification_code_hash raw_code expected_hash key =
      elim (hash_verification_code raw_code key 1) [
        | raised e ↦ false
        | returned (version, actual) ↦ actual == expected_hash
      ]

-- `generate_verification_code`: six decimal digits.
unfoldable pub decimal_digits : ℕ → (ℕ → ℕ) → String
decimal_digits zero draws = ""
decimal_digits (suc n) draws = pick "0123456789" (draws n % 10) (decimal_digits n draws)

abbrev pub generate_verification_code : (ℕ → ℕ) → String
generate_verification_code = decimal_digits 6

unfoldable pub redact_token_for_display : String → Outcome String
redact_token_for_display raw_key = elim (parse_api_key raw_key) [
  | raised e ↦ raised e
  | returned parts ↦ returned ("pst_" <> parts.kind <> "_" <> parts.prefix <> "...")
]
