-- ===== src/AuthProtection.antt =====
-- src/postara/auth_protection.py: failed logins and registrations are counted per e-mail and per
-- client address. Times are UTC instants in seconds, each reading of the clock an argument.
pub mod Store
pub mod Limiter
pub mod Peer
use postara.Text.{Unicode, lower, strip, ◌<>◌}
use postara.Prelude.{ℕ, String, Bool, Option, TextPair, if◌then◌else◌, ◌==◌, string_eq}

pub record AuthProtectionConfig : Type 0 where
  pub enabled : Bool
  pub challenge_enabled : Bool
  pub failure_limit : ℕ
  pub challenge_threshold : ℕ
  pub window_seconds : ℕ
  pub lock_seconds : ℕ

pub record AuthAttemptBucket : Type 0 where
  pub bucket_type : String
  pub bucket_key : String
  pub failure_count : ℕ
  pub window_started_at : ℕ
  pub locked_until : Option ℕ
  pub challenge_required_at : Option ℕ
  pub last_failure_at : Option ℕ

-- What the `ipaddress` module says of a text: no address, an IPv4 address in its usual form, or
-- an IPv6 address by the first address of its /64 network.
pub data IpAddress : Type 0 where
  not_an_address : IpAddress
  ipv4 : String → IpAddress
  ipv6 : String → IpAddress

-- Python's libraries: the Unicode tables, and `ipaddress`, which decides if an address is in one
-- of a list of networks too.
pub record Network : Type 0 where
  pub unicode : Unicode
  pub ip_address : String → IpAddress
  pub in_network : String → String → Bool

unfoldable pub normalize_email_key : Network → String → String
normalize_email_key n email = lower n.unicode (strip n.unicode email)

unfoldable pub normalize_ip_key : Network → String → String
normalize_ip_key n client_ip = elim (n.ip_address client_ip) [
  | not_an_address ↦
      let key = lower n.unicode (strip n.unicode client_ip) in if key == "" then "unknown" else key
  | ipv4 address ↦ address
  | ipv6 network ↦ network <> "/64"
]

abbrev pub Keys : Type 0
Keys = TextPair × TextPair

unfoldable pub bucket_keys : Network → String → String → String → Keys
bucket_keys n action email client_ip =
    let normalized_action : String = if action == "register" then "register" else "login" in
    (
      record { left = normalized_action <> ":email"; right = normalize_email_key n email },
      record { left = normalized_action <> ":ip"; right = normalize_ip_key n client_ip },
    )
