-- ===== src/Tests.antt =====
-- Concrete surroundings for the tests of src/postara: small stand-ins for the libraries, which keep
-- the documented laws and are not what the libraries compute.
mod Limits
mod Events
mod People
mod UserTables
mod Site
mod Web
mod Pages
mod States
mod Callbacks
mod Jobs
mod Calls
mod Challenges
mod Mailboxes
use Prim.Native.Char.{Char}
use postara.Prelude.{ℕ, zero, suc, String, refl, ap, none, some, beq_self, ◌≡◌, ◌==◌, string_eq}
use postara.Text.{Unicode, size, ◌<>◌}
use postara.Security.{Library, Draws, behind}
use postara.Security.Tokens.{behind-append}
use postara.Audit.{Python}

abbrev pub ascii : Unicode
ascii = record { lower = λ s. s; strip = λ s. s }

-- A time as that many strokes.
abbrev pub strokes : ℕ → String
strokes zero = ""
strokes (suc n) = "I" <> strokes n

pub size-strokes : (n : ℕ) → size (strokes n) ≡ n
size-strokes zero = refl
size-strokes (suc n) = ap suc (size-strokes n)

abbrev pub python : Python
python = record {
  unicode = ascii;
  isoformat = strokes;
  fromisoformat = λ s. some (size s);
  from_iso = λ t. ap some (size-strokes t);
}

abbrev pub library : Library
library = record {
  sha256 = λ s. "sha:" <> s;
  hmac_sha256 = λ key s. key <> s;
  urlsafe_b64decode = λ s. none;
  argon2_hash = λ salt raw. raw;
  argon2_verify = λ hash raw. hash == raw;
  fernet_encrypt = λ key seed plain. key <> plain;
  fernet_decrypt = behind;
  argon2_right = λ salt raw. beq_self raw;
  fernet_right = λ key seed plain. behind-append key plain;
}

-- Always the tenth letter for the one part, and the eleventh for the other.
abbrev pub draws : Draws
draws = record { for_prefix = λ i. 10; for_secret = λ i. 11 }
