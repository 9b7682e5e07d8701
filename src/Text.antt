-- ===== src/Text.antt =====
-- Python's `str` methods that the code uses. On ASCII text they are computed here; `Unicode`
-- stands for the tables of the interpreter, which alone decide what they do on other text.
use postara.Prelude.{
  ℕ, zero, suc, String, refl, ap, Bool, true, ltb, leb, ◌-◌, ◌≡◌, ◌&&◌, ◌||◌, if◌then◌else◌, ◌==◌,
  string_eq,
}
use Prim.Native.Char.{Char, code}
use text.Mathlib.Text.{starts_with}

pub record Unicode : Type 0 where
  pub lower : String → String
  pub strip : String → String

abbrev pub is_ascii : String → Bool
is_ascii String.[] = true
is_ascii (String.◌∷◌ c s) = ltb (code c) 128 && is_ascii s

unfoldable pub nth : String → ℕ → Char → Char
nth String.[] i d = d
nth (String.◌∷◌ c s) zero d = c
nth (String.◌∷◌ c s) (suc i) d = nth s i d

lower_char : Char → Char
unfolding nth
lower_char c =
    if leb b'A' (code c) && leb (code c) b'Z'
    then nth "abcdefghijklmnopqrstuvwxyz" (code c - b'A') c
    else c

lower_ascii : String → String
unfolding lower_char
lower_ascii String.[] = ""
lower_ascii (String.◌∷◌ c s) = String.◌∷◌ (lower_char c) (lower_ascii s)

-- `s.lower()`
unfoldable pub lower : Unicode → String → String
unfolding lower_ascii
lower u s = if is_ascii s then lower_ascii s else u.lower s

-- ASCII white space as `str.isspace` has it.
is_space : Char → Bool
is_space c = (leb 9 (code c) && leb (code c) 13) || (leb 28 (code c) && leb (code c) 32)

drop_spaces : String → String
unfolding is_space
drop_spaces String.[] = ""
drop_spaces (String.◌∷◌ c s) =
    let rest = drop_spaces s in if is_space c then rest else String.◌∷◌ c s

-- A trailing blank goes once nothing but blanks follows it.
drop_trailing_spaces : String → String
unfolding is_space
drop_trailing_spaces String.[] = ""
drop_trailing_spaces (String.◌∷◌ c s) =
    let rest = drop_trailing_spaces s in if is_space c && rest == "" then "" else String.◌∷◌ c rest

-- `s.strip()`
unfoldable pub strip : Unicode → String → String
unfolding drop_spaces drop_trailing_spaces
strip u s = if is_ascii s then drop_trailing_spaces (drop_spaces s) else u.strip s

-- `p in s`
unfoldable pub contains : String → String → Bool
contains String.[] p = starts_with "" p
contains (String.◌∷◌ c s) p = starts_with (String.◌∷◌ c s) p || contains s p

-- `s + t` and f-strings.
infixr 60 ◌<>◌
abbrev pub ◌<>◌ : String → String → String
String.[] <> t = t
String.◌∷◌ c s <> t = String.◌∷◌ c (s <> t)

-- The number of characters; of bytes, where a text stands for bytes.
abbrev pub size : String → ℕ
size String.[] = 0
size (String.◌∷◌ c s) = suc (size s)

pub <>_assoc : (s t u : String) → (s <> t) <> u ≡ s <> (t <> u)
<>_assoc String.[] t u = refl
<>_assoc (String.◌∷◌ c s) t u = ap (String.◌∷◌ c) (<>_assoc s t u)

-- The text `rest` with the character at an index of an alphabet put in front.
unfoldable pub pick : String → ℕ → String → String
pick String.[] i rest = rest
pick (String.◌∷◌ c s) zero rest = String.◌∷◌ c rest
pick (String.◌∷◌ c s) (suc i) rest = pick s i rest

pub <>-nil : (s : String) → s <> "" ≡ s
<>-nil String.[] = refl
<>-nil (String.◌∷◌ c s) = ap (String.◌∷◌ c) (<>-nil s)
