-- ===== src/Tests/States.antt =====
-- OAuth states of src/postara/oauth.py with stand-ins for json and base64 that keep their laws.
use postara.Exec.{returned}
use postara.Prelude.{
  String, refl, sym, ap, inl, inr, false, Option, none, some, [], arith, nat_eq, Bool-cases, ◌<◌,
  ◌≡◌, ◌∷◌, if◌then◌else◌, ◌==◌, string_eq,
}
use Prim.Native.Char.{Char, code}
use package.text.Mathlib.TextEquality.{Char-path}
use postara.Text.{size, ◌<>◌}
use postara.Audit.{Value, object, text, number, field, end}
use postara.OAuth.{OAuthState, Codecs, OAuthStateCodec, payload, has_dot, sign, sign_bytes, verify}
use postara.OAuth.State.{signed_state, IsSigned, verify-sign, verify-IsSigned}
use postara.Tests.{python, library, strokes, size-strokes}
use postara.Dict
use postara.Security.{decode_key_material}

-- Each character behind an `x`, and a mark at the end.
marked : String → String
marked String.[] = "."
marked (String.◌∷◌ c s) = String.◌∷◌ "x" (String.◌∷◌ c (marked s))

abbrev in_front : Char → Option (String × String) → Option (String × String)
in_front c none = none
in_front c (some (a, b)) = some (String.◌∷◌ c a, b)

unmarked : String → Option (String × String)
unmarked String.[] = none
unmarked (String.◌∷◌ m String.[]) = if code m == b'.' then some ("", "") else none
unmarked (String.◌∷◌ m (String.◌∷◌ c s)) =
    let rest = unmarked s in if code m == b'.' then some ("", String.◌∷◌ c s) else in_front c rest

unmarked-marked : (s rest : String) → unmarked (marked s <> rest) ≡ some (s, rest)
unfolding marked unmarked
unmarked-marked String.[] String.[] = refl
unmarked-marked String.[] (String.◌∷◌ c rest) = refl
unmarked-marked (String.◌∷◌ c s) rest = rw (unmarked-marked s rest) refl

-- Six texts, one after the other.
pub six : String → String → String → String → String → String → String
six a b c d e f =
    marked a <> (marked b <> (marked c <> (marked d <> (marked e <> (marked f <> "")))))

abbrev and_then {ℓ} :
    {A : Type ℓ} → (String → String → Option A) → Option (String × String) → Option A
and_then g none = none
and_then g (some (a, b)) = g a b

rebuilt : String → String → String → String → String → String → Value
rebuilt a b c d e f = object (
    field "expires_at" (text a) (
      field "name" (text b) (
        field "nonce" (text c) (
          field "provider" (text d)
            (field "user_id" (number (size e)) (field "version" (number (size f)) end))))))

pub read_six : String → Option Value
read_six s =
    and_then
      (λ a s1.
        and_then
          (λ b s2.
            and_then
              (λ c s3.
                and_then
                  (λ d s4.
                    and_then (λ e s5. and_then (λ f s6. some (rebuilt a b c d e f)) (unmarked s5))
                      (unmarked s4))
                  (unmarked s3))
              (unmarked s2))
          (unmarked s1))
      (unmarked s)

abbrev dumps : Value → String
dumps
      (object (
        field _ (text a) (
          field _
            (text b)
            (field _ (text c) (field _ (text d) (field _ (number e) (field _ (number f) end))))))) =
    six a b c d (strokes e) (strokes f)
dumps _ = ""

pub read_six-dumps :
    (s : OAuthState) → read_six (dumps (payload python s)) ≡ some (payload python s)
unfolding read_six rebuilt six payload
read_six-dumps s =
    rw
      (
        unmarked-marked (strokes s.expires_at) _,
        unmarked-marked s.name _,
        unmarked-marked s.nonce _,
        unmarked-marked s.provider _,
        unmarked-marked (strokes s.user_id) _,
        unmarked-marked (strokes s.version) "",
        size-strokes s.user_id,
        size-strokes s.version,
      )
      refl

-- A text without dots for each text.
pub plain : String → String
plain String.[] = ""
plain (String.◌∷◌ c s) =
    let rest = plain s in
    if code c == b'.' then String.◌∷◌ "a" rest else String.◌∷◌ "b" (String.◌∷◌ c rest)

abbrev in_front_of : Char → Option String → Option String
in_front_of c none = none
in_front_of c (some s) = some (String.◌∷◌ c s)

pub unplain : String → Option String
unplain String.[] = some ""
unplain (String.◌∷◌ m String.[]) = if code m == b'a' then some "." else none
unplain (String.◌∷◌ m (String.◌∷◌ c s)) =
    let dot = unplain (String.◌∷◌ c s) in
    let other = unplain s in if code m == b'a' then in_front_of "." dot else in_front_of c other

unplain-a : (s : String) → unplain (String.◌∷◌ "a" s) ≡ in_front_of "." (unplain s)
unfolding unplain
unplain-a String.[] = refl
unplain-a (String.◌∷◌ c s) = refl

pub unplain-plain : (s : String) → unplain (plain s) ≡ some s
unfolding plain unplain
unplain-plain String.[] = refl
unplain-plain (String.◌∷◌ c s) = elim (Bool-cases (code c == b'.')) [
  | inl dot ↦
      let is : "." ≡ c = sym (Char-path c "." ((nat_eq.beq_iff (code c) b'.').0 dot)) in
      rw (plain, dot, unplain-a (plain s), unplain-plain s) (ap (λ d. some (String.◌∷◌ d s)) is)
  | inr other ↦ rw (plain, other, unplain-plain s) refl
]

pub plain-plain : (s : String) → has_dot (plain s) ≡ false
unfolding has_dot plain
plain-plain String.[] = refl
plain-plain (String.◌∷◌ c s) = elim (Bool-cases (code c == b'.')) [
  | inl dot ↦ rw (plain, dot, plain-plain s) refl
  | inr other ↦ ground (arith, other, plain-plain s)
]

abbrev codecs : Codecs
codecs = record {
  python = python;
  dumps = dumps;
  loads = read_six;
  b64 = plain;
  unb64 = unplain;
  int = λ s. none;
  str = λ v. "";
  loads-dumps = read_six-dumps;
  unb64-b64 = unplain-plain;
  b64_plain = plain-plain;
}

abbrev pub codec : OAuthStateCodec
codec = record {
  lib = library;
  codecs = codecs;
  keys = (1, "kkkkkkkkkkkkkkkkkkkkkkkkkkkkkkkk") ∷ [];
  active_version = 1;
}

abbrev codec_state : OAuthState
codec_state = signed_state codec "n" 7 "gmail" "work" 3

-- The text that the codec makes for the user 7.
raw_state : String
unfolding plain six marked payload
raw_state =
    let bytes = dumps (payload python codec_state) in
    plain bytes <> ("." <> plain ("kkkkkkkkkkkkkkkkkkkkkkkkkkkkkkkk" <> bytes))

verify-sign_example : verify codec 2 raw_state "gmail" ≡ returned codec_state
unfolding raw_state sign sign_bytes decode_key_material Dict.get
verify-sign_example = verify-sign codec "n" 7 "gmail" "work" 3 raw_state 2 "gmail" refl

verify-IsSigned_example :
    (signature : String) × IsSigned codec raw_state codec_state.version signature signature
    × (codec_state.provider ≡ "gmail")
    × (2 < codec_state.expires_at)
verify-IsSigned_example = verify-IsSigned codec 2 raw_state "gmail" codec_state verify-sign_example
