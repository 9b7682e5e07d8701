-- ===== src/Security/Tokens.antt =====
-- Round trips of the tokens of src/postara/security.py.
use postara.Exec.{returned, raised}
use Prim.Native.Char.{Char, code}
use mathlib.Core.Path.{ap₂}
use text.Mathlib.TextEquality.{Char-path}
use postara.Prelude.{
  ℕ, zero, suc, String, refl, sym, ap, inl, inr, Bool, true, Option, none, some, arith, nat_eq,
  string_eq, Bool-cases, Option-cases, beq_self, ◌%◌, ◌<◌, ◌≡◌, ◌∙◌, ◌&&◌, ◌==◌,
}
use postara.Text.{pick, size, ◌<>◌, <>-nil}
use postara.Security.{
  Draws, ApiKeyParts, base62_alphabet, base62, choice62, is_base62, behind, take_base62,
  match_parts, match_token, parse_api_key, parse_session_token, or_format_error, generate_api_key,
  generate_session_token, redact_token_for_display,
}

are_base62 : String → Bool
are_base62 String.[] = true
are_base62 (String.◌∷◌ c s) = is_base62 c && are_base62 s

pick-cons :
    (s : String) (i : ℕ) (rest : String)
    → i < size s
    → are_base62 s ≡ true
    → (c : Char) × (pick s i rest ≡ String.◌∷◌ c rest) × (is_base62 c ≡ true)
unfolding pick are_base62
pick-cons String.[] i rest h a = absurd (omega arith)
pick-cons (String.◌∷◌ c s) zero rest h a = (c, refl, ground arith)
pick-cons (String.◌∷◌ c s) (suc i) rest h a = pick-cons s i rest (omega arith) (ground arith)

choice62-cons :
    (draw : ℕ) (rest : String)
    → (c : Char) × (choice62 draw rest ≡ String.◌∷◌ c rest) × (is_base62 c ≡ true)
unfolding choice62 are_base62 is_base62
choice62-cons draw rest = pick-cons base62_alphabet (draw % 62) rest (omega arith) refl

take_base62-base62 :
    (n : ℕ) (draws : ℕ → ℕ) (rest : String)
    → take_base62 n (base62 n draws <> rest) ≡ some (base62 n draws, rest)
unfolding take_base62 base62
take_base62-base62 zero draws rest = refl
take_base62-base62 (suc n) draws rest =
    let (c, e, ok) = choice62-cons (draws n) (base62 n draws) in
    rw (e, take_base62-base62 n draws rest, ok) refl

pub behind-append : (p s : String) → behind p (p <> s) ≡ some s
unfolding behind
behind-append String.[] s = refl
behind-append (String.◌∷◌ c p) s = rw (beq_self (code c)) (behind-append p s)

behind_sound : (p s r : String) → behind p s ≡ some r → s ≡ p <> r
unfolding behind
behind_sound String.[] s r h = ground arith
behind_sound (String.◌∷◌ c p) String.[] r h = cc
behind_sound (String.◌∷◌ c p) (String.◌∷◌ d s) r h = elim (Bool-cases (code c == code d)) [
  | inl same ↦
      ap₂ String.◌∷◌ (sym (Char-path c d ((nat_eq.beq_iff (code c) (code d)).0 same)))
        (behind_sound p s r (rw same at h))
  | inr other ↦ ground (arith, h, other)
]

parts_inj :
    {x y a b : String}
    → ◌≡◌ {A = Option (String × String)} (some (x, y)) (some (a, b))
    → (x ≡ a) × (y ≡ b)
parts_inj {x} {y} h = (ap (λ o. left_of o) h, ap (λ o. right_of o) h)
  where
    left_of : Option (String × String) → String
    left_of none = x
    left_of (some p) = p.0

    right_of : Option (String × String) → String
    right_of none = y
    right_of (some p) = p.1

take_base62_sound : (n : ℕ) (s a r : String) → take_base62 n s ≡ some (a, r) → s ≡ a <> r
unfolding take_base62
take_base62_sound zero s a r h = let e = parts_inj h in rw (← e.0) e.1
take_base62_sound (suc n) String.[] a r h = cc
take_base62_sound (suc n) (String.◌∷◌ c s) a r h = elim (Bool-cases (is_base62 c)) [
  | inr bad ↦ ground (arith, h, bad)
  | inl good ↦ elim (Option-cases (take_base62 n s)) [
    | inl e ↦ ground (arith, h, good, e)
    | inr ((b, q), e) ↦
        let f = parts_inj (rw (good, e) at h) in
        rw (← f.0, ← f.1) (ap (String.◌∷◌ c) (take_base62_sound n s b q e))
  ]
]

match_parts-append :
    (n : ℕ) (d : Draws)
    → match_parts n (base62 8 d.for_prefix <> "." <> base62 n d.for_secret)
      ≡ some (base62 8 d.for_prefix, base62 n d.for_secret)
unfolding match_parts
match_parts-append n d =
    let tail = rw <>-nil at (take_base62-base62 n d.for_secret "") in
    rw
      (
        take_base62-base62 8 d.for_prefix ("." <> base62 n d.for_secret),
        behind-append "." (base62 n d.for_secret),
        tail,
      )
      refl

abbrev drawn_parts : String → Draws → ApiKeyParts
drawn_parts kind d = record {
  kind = kind;
  prefix = base62 8 d.for_prefix;
  secret = base62 32 d.for_secret;
}

match_live :
    (d : Draws)
    → match_token ("pst_live_" <> base62 8 d.for_prefix <> "." <> base62 32 d.for_secret)
      ≡ some (drawn_parts "live" d)
unfolding match_token behind
match_live d = rw (match_parts-append 32 d) refl

match_test :
    (d : Draws)
    → match_token ("pst_test_" <> base62 8 d.for_prefix <> "." <> base62 32 d.for_secret)
      ≡ some (drawn_parts "test" d)
unfolding match_token behind
match_test d = rw (match_parts-append 32 d) refl

redacted_from :
    (raw : String) (parts : ApiKeyParts)
    → parse_api_key raw ≡ returned parts
    → redact_token_for_display raw ≡ returned ("pst_" <> parts.kind <> "_" <> parts.prefix <> "...")
unfolding redact_token_for_display
redacted_from raw parts h = rw (h, redact_token_for_display) refl

parse_live :
    (d : Draws)
    → parse_api_key ("pst_live_" <> base62 8 d.for_prefix <> "." <> base62 32 d.for_secret)
      ≡ returned (drawn_parts "live" d)
unfolding parse_api_key
parse_live d = ap or_format_error (match_live d)

parse_test :
    (d : Draws)
    → parse_api_key ("pst_test_" <> base62 8 d.for_prefix <> "." <> base62 32 d.for_secret)
      ≡ returned (drawn_parts "test" d)
unfolding parse_api_key
parse_test d = ap or_format_error (match_test d)

-- A generated API key of either kind parses to its kind and its two random parts, and what is
-- displayed of it is made from the kind and the prefix alone. (Any other kind is refused by
-- `generate_api_key`.)
pub parse_api_key-generate_api_key :
    (kind : String) (d : Draws) (key : String)
    → generate_api_key kind d ≡ returned key
    → (parse_api_key key ≡ returned (drawn_parts kind d))
      × (redact_token_for_display key
          ≡ returned ("pst_" <> kind <> "_" <> base62 8 d.for_prefix <> "..."))
unfolding generate_api_key
parse_api_key-generate_api_key kind d key h = elim (Bool-cases (kind == "live")) [
  | inl live ↦
      let e : kind ≡ "live" = (string_eq.beq_iff kind "live").0 live in
      let made = key_of (rw (live) at h) in
      (rw (← made, e) (parse_live d), rw (← made, e) (redacted_from _ _ (parse_live d)))
  | inr other ↦ elim (Bool-cases (kind == "test")) [
    | inl test ↦
        let e : kind ≡ "test" = (string_eq.beq_iff kind "test").0 test in
        let made = key_of (rw (other, test) at h) in
        (rw (← made, e) (parse_test d), rw (← made, e) (redacted_from _ _ (parse_test d)))
    | inr neither ↦ ground (arith, h, other, neither)
  ]
]
  where
    key_of : {a b : String} → returned a ≡ returned b → a ≡ b
    key_of {a} h = ap (λ o. elim o [ returned x ↦ x | raised _ ↦ a ]) h

match_parts_sound : (n : ℕ) (s a b : String) → match_parts n s ≡ some (a, b) → s ≡ a <> "." <> b
unfolding match_parts
match_parts_sound n s a b h = elim (Option-cases (take_base62 8 s)) [
  | inl e ↦ ground (arith, h, e)
  | inr ((x, after), e) ↦ elim (Option-cases (behind "." after)) [
    | inl f ↦ ground (arith, h, e, f)
    | inr (rest, f) ↦ elim (Option-cases (take_base62 n rest)) [
      | inl g ↦ ground (arith, h, e, f, g)
      | inr ((y, z), g) ↦ elim (Bool-cases (z == "")) [
        | inr more ↦ ground (arith, h, e, f, g, more)
        | inl all ↦
            let none_left : z ≡ "" = (string_eq.beq_iff z "").0 all in
            let parts = parts_inj {x = x} {y = y} (rw (e, f, g, all) at h) in
            let whole : rest ≡ y = take_base62_sound n rest y z g ∙ rw none_left (<>-nil y) in
            rw (← parts.0, ← parts.1)
              (take_base62_sound 8 s x after e
                ∙ ap (λ t. x <> t) (behind_sound "." after rest f ∙ ap (λ t. "." <> t) whole))
      ]
    ]
  ]
]

-- A session token that was generated parses to its two random parts.
pub parse_session_token-generate_session_token :
    (d : Draws)
    → parse_session_token (generate_session_token d)
      ≡ returned (base62 8 d.for_prefix, base62 48 d.for_secret)
unfolding parse_session_token generate_session_token behind
parse_session_token-generate_session_token d = rw (match_parts-append 48 d) refl
