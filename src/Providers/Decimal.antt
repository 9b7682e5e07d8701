-- ===== src/Providers/Decimal.antt =====
-- Python's `str(n)` and, on ASCII text, `int(text)` for numbers above zero, as
-- src/postara/providers/gmail.py and src/postara/api.py use them.
pub mod RoundTrip
use postara.Prelude.{
  ℕ, zero, suc, String, Bool, true, false, not, Option, none, some, ltb, leb, ◌+◌, ◌-◌, ◌*◌, ◌/◌,
  ◌%◌, ◌&&◌, ◌||◌, if◌then◌else◌, ◌==◌, nat_eq, string_eq,
}
use Prim.Native.Char.{Char, code}
use postara.Text.{pick}

-- One more digit in front.
digit_onto : ℕ → String → String
digit_onto d s = pick "0123456789" d s

digits_onto : ℕ → ℕ → String → String
unfolding digit_onto
digits_onto zero n s = s
digits_onto (suc fuel) n s = elim (ltb n 10) [
  | true ↦ digit_onto n s
  | false ↦ digits_onto fuel (n / 10) (digit_onto (n % 10) s)
]

-- `str(n)`
unfoldable pub show : ℕ → String
unfolding digits_onto
show n = digits_onto (suc n) n ""

is_digit : Char → Bool
is_digit c = leb b'0' (code c) && leb (code c) b'9'

-- The digits of a number behind some that make `n`; single underscores may stand between two of
-- them. The test says whether a digit has to come next.
read_digits : Bool → ℕ → String → Option ℕ
unfolding is_digit
read_digits needed n String.[] = if needed then none else some n
read_digits needed n (String.◌∷◌ c s) =
    let next = read_digits false (n * 10 + (code c - b'0')) s in
    let skip = read_digits true n s in
    if is_digit c then next else if not needed && code c == b'_' then skip else none

is_blank : Char → Bool
is_blank c = (leb 9 (code c) && leb (code c) 13) || code c == 32

drop_blanks : String → String
unfolding is_blank
drop_blanks String.[] = ""
drop_blanks (String.◌∷◌ c s) =
    let rest = drop_blanks s in if is_blank c then rest else String.◌∷◌ c s

drop_trailing_blanks : String → String
unfolding is_blank
drop_trailing_blanks String.[] = ""
drop_trailing_blanks (String.◌∷◌ c s) =
    let rest = drop_trailing_blanks s in if is_blank c && rest == "" then "" else String.◌∷◌ c rest

-- A minus sign is no digit, so that a number below zero is `none` here.
read_signed : String → Option ℕ
unfolding read_digits
read_signed String.[] = none
read_signed (String.◌∷◌ c s) =
    if code c == b'+' then read_digits true 0 s else read_digits true 0 (String.◌∷◌ c s)

-- `int(s)` where that is not below zero; texts of more than 4,300 digits are left out.
unfoldable pub int : String → Option ℕ
unfolding read_signed drop_blanks drop_trailing_blanks
int s = read_signed (drop_trailing_blanks (drop_blanks s))
