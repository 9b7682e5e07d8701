-- ===== src/Providers/Decimal/RoundTrip.antt =====
-- `int(str(n))`.
use Prim.Native.Char.{Char, code}
use postara.Prelude.{
  ℕ, zero, suc, String, refl, subst, inl, inr, Bool, true, false, some, arith, ltb, string_eq,
  Bool-cases, ◌+◌, ◌-◌, ◌*◌, ◌/◌, ◌%◌, ◌<◌, ◌≡◌, ◌==◌, nat_eq,
}
use postara.Text.{pick, size, is_ascii}
use postara.Providers.Decimal.{
  digit_onto, digits_onto, show, is_digit, read_digits, is_blank, drop_blanks, drop_trailing_blanks,
  read_signed, int,
}

-- The codes of the characters go up by one.
Ascends : ℕ → String → Type 0
Ascends v String.[] = Unit
Ascends v (String.◌∷◌ c s) = (code c ≡ v) × Ascends (suc v) s

pick-Ascends :
    (v i : ℕ) (s rest : String)
    → i < size s
    → Ascends v s
    → (c : Char) × (pick s i rest ≡ String.◌∷◌ c rest) × (code c ≡ v + i)
unfolding pick Ascends
pick-Ascends v i String.[] rest h a = let absurd : ⊥ = omega arith in elim absurd [ ]
pick-Ascends v zero (String.◌∷◌ c s) rest h a = (c, refl, omega (arith, a.0))
pick-Ascends v (suc i) (String.◌∷◌ c s) rest h a =
    let (d, e, value) = pick-Ascends (suc v) i s rest (omega arith) a.1 in
    (d, e, omega (arith, value))

pick_digit :
    (d : ℕ) (s : String)
    → d < 10
    → (c : Char) × (digit_onto d s ≡ String.◌∷◌ c s) × (is_digit c ≡ true) × (code c - b'0' ≡ d)
unfolding digit_onto is_digit Ascends
pick_digit d s h =
    let (c, e, value) =
      pick-Ascends b'0' d "0123456789" s h
        (refl, (refl, (refl, (refl, (refl, (refl, (refl, (refl, (refl, (refl, tt)))))))))) in
    (c, e, ground (arith, value, h), omega (arith, value))

IsDigits : String → Type 0
IsDigits String.[] = Unit
IsDigits (String.◌∷◌ c s) = (is_digit c ≡ true) × IsDigits s

digit_onto-IsDigits : (d : ℕ) (s : String) → d < 10 → IsDigits s → IsDigits (digit_onto d s)
unfolding IsDigits
digit_onto-IsDigits d s small h = let (c, e, digit, _) = pick_digit d s small in rw e (digit, h)

digits_onto-IsDigits : (f n : ℕ) (s : String) → IsDigits s → IsDigits (digits_onto f n s)
unfolding digits_onto
digits_onto-IsDigits zero n s h = h
digits_onto-IsDigits (suc f) n s h = elim (Bool-cases (ltb n 10)) [
  | inl small ↦ rw (digits_onto, small) (digit_onto-IsDigits n s (ground (arith, small)) h)
  | inr large ↦
      rw (digits_onto, large)
        (digits_onto-IsDigits f (n / 10) (digit_onto (n % 10) s)
          (digit_onto-IsDigits (n % 10) s (omega arith) h))
]

digit_not_blank : (c : Char) → is_digit c ≡ true → is_blank c ≡ false
unfolding is_digit is_blank
digit_not_blank c h = ground (arith, h)

drop_trailing_blanks-digits : (s : String) → IsDigits s → drop_trailing_blanks s ≡ s
unfolding drop_trailing_blanks IsDigits
drop_trailing_blanks-digits String.[] h = refl
drop_trailing_blanks-digits (String.◌∷◌ c s) h =
    rw (digit_not_blank c h.0, drop_trailing_blanks-digits s h.1) refl

drop_blanks-digits : (s : String) → IsDigits s → drop_blanks s ≡ s
unfolding drop_blanks IsDigits
drop_blanks-digits String.[] h = refl
drop_blanks-digits (String.◌∷◌ c s) h = rw (digit_not_blank c h.0) refl

-- No digit is a sign, so that digits are read from the first.
read_signed-digits : (s : String) → IsDigits s → read_signed s ≡ read_digits true 0 s
unfolding read_signed read_digits IsDigits is_digit
read_signed-digits String.[] h = refl
read_signed-digits (String.◌∷◌ c s) h = ground (arith, h.0)

read_digits-digit :
    (needed : Bool) (n d : ℕ) (s : String)
    → d < 10
    → read_digits needed n (digit_onto d s) ≡ read_digits false (n * 10 + d) s
unfolding read_digits
read_digits-digit needed n d s small =
    let (c, e, digit, value) = pick_digit d s small in rw (e, digit, value) refl

read_digits-digits_onto :
    (f n : ℕ) (s : String) → n < f → read_digits true 0 (digits_onto f n s) ≡ read_digits false n s
unfolding digits_onto
read_digits-digits_onto zero n s h = let absurd : ⊥ = omega arith in elim absurd [ ]
read_digits-digits_onto (suc f) n s h = elim (Bool-cases (ltb n 10)) [
  | inl small ↦
      let whole : 0 * 10 + n ≡ n = omega arith in
      rw (digits_onto, small, read_digits-digit true 0 n s (ground (arith, small)), whole) refl
  | inr large ↦
      let enough : n / 10 < f = ground (arith, large, h) in
      let split : n / 10 * 10 + n % 10 ≡ n = omega arith in
      rw
        (
          digits_onto,
          large,
          read_digits-digits_onto f (n / 10) (digit_onto (n % 10) s) enough,
          read_digits-digit false (n / 10) (n % 10) s (omega arith),
          split,
        )
        refl
]

-- What `str` makes of a number, `int` reads back.
pub int-show : (n : ℕ) → int (show n) ≡ some n
unfolding int show read_digits IsDigits
int-show n =
    let digits = digits_onto-IsDigits (suc n) n "" tt in
    rw
      (
        drop_blanks-digits (digits_onto (suc n) n "") digits,
        drop_trailing_blanks-digits (digits_onto (suc n) n "") digits,
        read_signed-digits (digits_onto (suc n) n "") digits,
        read_digits-digits_onto (suc n) n "" (omega arith),
      )
      refl

is_ascii-digits : (s : String) → IsDigits s → is_ascii s ≡ true
unfolding IsDigits is_digit
is_ascii-digits String.[] h = refl
is_ascii-digits (String.◌∷◌ c s) h = ground (arith, h.0, is_ascii-digits s h.1)

-- A printed number is plain text, and not the empty one.
pub is_ascii-show : (n : ℕ) → is_ascii (show n) ≡ true
unfolding show IsDigits
is_ascii-show n = is_ascii-digits (digits_onto (suc n) n "") (digits_onto-IsDigits (suc n) n "" tt)

pub show_not_empty : (n : ℕ) → (show n == "") ≡ false
unfolding int read_signed drop_blanks drop_trailing_blanks
show_not_empty n = elim (Bool-cases (show n == "")) [
  | inl same ↦
      let none_read : int "" ≡ some n =
        subst (λ s. int s ≡ some n) ((string_eq.beq_iff (show n) "").0 same) (int-show n) in
      ground (arith, none_read)
  | inr other ↦ other
]
