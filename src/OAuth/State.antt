-- ===== src/OAuth/State.antt =====
-- What the codec of src/postara/oauth.py signs and accepts.
use postara.Errors.{oauth_state_error}
use postara.Exec.{Outcome, returned, raised, returned_inj, Outcome-cases}
use postara.Prelude.{
  ℕ, String, refl, ap, subst, inl, inr, true, false, not, Option, none, some, arith, leb, string_eq,
  Bool-cases, Option-cases, beq_self, ◌<◌, ◌≡◌, if◌then◌else◌, ◌==◌, nat_eq,
}
use Prim.Native.Char.{code}
use postara.Text.{◌<>◌}
use postara.Audit.{
  Fields, Value, null, boolean, number, text, instant, array, object, other, lookup,
}
use postara.Dict
use postara.OAuth.{
  OAuthState, OAuthStateCodec, payload, has_dot, split_dot, fields_of, int_entry, bind_option,
  or_none, checked, is_for, sign_bytes, sign, open_state, verify,
}

split_dot-append : (a b : String) → has_dot a ≡ false → split_dot (a <> ("." <> b)) ≡ some (a, b)
unfolding has_dot split_dot
split_dot-append String.[] b h = refl
split_dot-append (String.◌∷◌ c a) b h = elim (Bool-cases (code c == b'.')) [
  | inl dot ↦ ground (arith, h, dot)
  | inr plain ↦
      let rest : split_dot (a <> ("." <> b)) ≡ some (a, b) =
        split_dot-append a b (ground (arith, h, plain)) in
      rw (plain, rest) refl
]

some_inj : {A : Type 0} {a b : A} → some a ≡ some b → a ≡ b
some_inj {A} {a} h = ap value h
  where
    value : Option A → A
    value none = a
    value (some x) = x

bind_option_inv :
    {A B : Type 0} (o : Option A) (f : A → Option B) (y : B)
    → bind_option o f ≡ some y
    → (x : A) × (o ≡ some x) × (f x ≡ some y)
bind_option_inv none f y h = ground (arith, h)
bind_option_inv (some x) f y h = (x, refl, h)

or_none_inv : {A : Type 0} (r : Outcome A) (x : A) → or_none r ≡ some x → r ≡ returned x
or_none_inv (raised e) x h = ground (arith, h)
or_none_inv (returned y) x h = ground (arith, h)

module _ (c : OAuthStateCodec) where
  abbrev pub signed_state : String → ℕ → String → String → ℕ → OAuthState
  signed_state nonce user_id provider name expires_at = record {
    version = c.active_version;
    nonce = nonce;
    user_id = user_id;
    provider = provider;
    name = name;
    expires_at = expires_at;
  }

  -- A text that `sign` gives is read back as the state that was signed, by a codec with the same keys,
  -- for the provider that was signed and before the expiry; for another provider, or from the expiry
  -- on, it is refused.
  pub verify-sign :
      (nonce : String) (user_id : ℕ) (provider name : String) (expires_at : ℕ) (raw_state : String)
      (now : ℕ) (wanted : String)
      → sign c nonce user_id provider name expires_at ≡ returned raw_state
      → verify c now raw_state wanted ≡ (
          if not (provider == wanted)
          then raised oauth_state_error
          else if leb expires_at now
          then raised oauth_state_error
          else returned (signed_state nonce user_id provider name expires_at))
  unfolding sign verify open_state payload lookup
  verify-sign nonce user_id provider name expires_at raw_state now wanted h =
      let s = signed_state nonce user_id provider name expires_at in
      let bytes = c.codecs.dumps (payload c.codecs.python s) in
      elim (Option-cases (Dict.get c.keys c.active_version)) [
        | inl missing ↦ ground (arith, h, missing)
        | inr (key, held) ↦ elim (Outcome-cases (sign_bytes c bytes key)) [
          | inl (e, bad) ↦ ground (arith, h, held, bad)
          | inr (signature, good) ↦
              let is : c.codecs.b64 bytes <> ("." <> c.codecs.b64 signature) ≡ raw_state =
                returned_inj (rw (sign, held, good) at h) in
              rw
                (
                  ← is,
                  verify,
                  open_state,
                  split_dot-append (c.codecs.b64 bytes) (c.codecs.b64 signature)
                      (c.codecs.b64_plain bytes),
                  c.codecs.unb64-b64 bytes,
                  c.codecs.loads-dumps s,
                  held,
                  good,
                  c.codecs.unb64-b64 signature,
                  beq_self signature,
                  c.codecs.python.from_iso expires_at,
                )
                refl
        ]
      ]

  -- The two parts of a text, with the signature of the one under a key of the codec as the other.
  pub record IsSigned (raw_state : String) (version : ℕ) (expected actual : String) : Type 0 where
    pub front : String
    pub back : String
    pub bytes : String
    pub key : String
    pub parts : split_dot raw_state ≡ some (front, back)
    pub decoded : c.codecs.unb64 front ≡ some bytes
    pub known : Dict.get c.keys version ≡ some key
    pub signed : sign_bytes c bytes key ≡ returned expected
    pub shown : c.codecs.unb64 back ≡ some actual

  open_state-IsSigned :
      (raw_state : String) (x : Fields × ℕ × String × String)
      → open_state c raw_state ≡ some x
      → IsSigned raw_state x.1 x.2 x.3
  unfolding open_state
  open_state-IsSigned raw_state x h =
      let (parts, split, h1) = bind_option_inv (split_dot raw_state) _ x h in
      let (bytes, decoded, h2) = bind_option_inv (c.codecs.unb64 parts.0) _ x h1 in
      let (value, _, h3) = bind_option_inv (c.codecs.loads bytes) _ x h2 in
      let (fields, _, h4) = bind_option_inv (fields_of value) _ x h3 in
      let (version, _, h5) = bind_option_inv (int_entry c (lookup "version" fields)) _ x h4 in
      let (key, known, h6) = bind_option_inv (Dict.get c.keys version) _ x h5 in
      let (expected, signed, h7) = bind_option_inv (or_none (sign_bytes c bytes key)) _ x h6 in
      let (actual, shown, h8) = bind_option_inv (c.codecs.unb64 parts.1) _ x h7 in
      let same : (fields, version, expected, actual) ≡ x = some_inj h8 in
      subst (λ (y : Fields × ℕ × String × String). IsSigned raw_state y.1 y.2 y.3) same
        (record {
          front = parts.0;
          back = parts.1;
          bytes = bytes;
          key = key;
          parts = split;
          decoded = decoded;
          known = known;
          signed = or_none_inv (sign_bytes c bytes key) expected signed;
          shown = shown;
        })

  is_for-text :
      (wanted : String) (entry : Option Value)
      → is_for wanted entry ≡ true
      → entry ≡ some (text wanted)
  is_for-text wanted none h = ground (arith, h)
  is_for-text wanted (some (text s)) h = ground (arith, (string_eq.beq_iff s wanted).0 h)
  is_for-text wanted (some null) h = ground (arith, h)
  is_for-text wanted (some (boolean b)) h = ground (arith, h)
  is_for-text wanted (some (number n)) h = ground (arith, h)
  is_for-text wanted (some (instant t)) h = ground (arith, h)
  is_for-text wanted (some (array xs)) h = ground (arith, h)
  is_for-text wanted (some (other truth name held)) h = ground (arith, h)
  is_for-text wanted (some (object fs)) h = ground (arith, h)

  checked_passed :
      (now version : ℕ) (wanted expected actual : String) (fields : Fields) (state : OAuthState)
      → checked c now wanted (some (fields, version, expected, actual)) ≡ returned state
      → (actual ≡ expected)
        × (version ≡ state.version)
        × (state.provider ≡ wanted)
        × (now < state.expires_at)
  checked_passed now version wanted expected actual fields state h =
      ground
        (arith, h, string_eq.beq_iff actual expected, is_for-text wanted (lookup "provider" fields))

  -- What `verify` accepts was signed: the text has two parts, of which the second is the signature of
  -- the first under a key of the codec, that of the version in the state; the state is for the
  -- provider asked for and not expired.
  pub verify-IsSigned :
      (now : ℕ) (raw_state wanted : String) (state : OAuthState)
      → verify c now raw_state wanted ≡ returned state
      → (signature : String) × IsSigned raw_state state.version signature signature
        × (state.provider ≡ wanted)
        × (now < state.expires_at)
  unfolding verify
  verify-IsSigned now raw_state wanted state h = elim (Option-cases (open_state c raw_state)) [
    | inl bad ↦ ground (arith, h, bad)
    | inr ((fields, version, expected, actual), opened) ↦
        let signed = open_state-IsSigned raw_state (fields, version, expected, actual) opened in
        let passed =
          checked_passed now version wanted expected actual fields state (rw opened at h) in
        (
          expected,
          subst (λ a. IsSigned raw_state state.version expected a) passed.0
              (subst (λ v. IsSigned raw_state v expected actual) passed.1 signed),
          passed.2,
          passed.3,
        )
  ]
