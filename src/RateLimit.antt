-- ===== src/RateLimit.antt =====
-- src/postara/rate_limit.py: the sliding-window limiter. Times are the readings of
-- `time.monotonic()` in one fixed unit, each an argument of the call that makes it.
pub mod Sliding
pub mod Refinement
pub mod Window
use postara.Prelude.{
  ℕ, String, none, some, List, [], leb, TextPair, length, ◌+◌, ◌∷◌, ◌++◌, if◌then◌else◌,
  text_pair_eq,
}
use postara.Errors.{rate_limit_exceeded}
use postara.Exec.{Exec, gets, modify, raise_if, ◌>>=◌, ◌>>◌}
use postara.Dict
use postara.Dict.{Dict}

pub record RateLimitRule : Type 0 where
  pub limit : ℕ
  pub window_seconds : ℕ

pub record InMemoryRateLimiter : Type 0 where
  pub api_key_rule : RateLimitRule
  pub auth_failure_rule : RateLimitRule
  pub events : Dict TextPair (List ℕ)

-- `self._events[bucket]` of the `defaultdict`
unfoldable pub bucket_events : InMemoryRateLimiter → TextPair → List ℕ
bucket_events s bucket = elim (Dict.get s.events bucket) [ none ↦ [] | some events ↦ events ]

-- `events[0] <= now - window_seconds`, with the window on the other side since `-` stops at 0.
unfoldable pub prune : List ℕ → RateLimitRule → ℕ → List ℕ
prune [] rule now = []
prune (e ∷ events) rule now =
    let rest = prune events rule now in
    if leb (e + rule.window_seconds) now then rest else e ∷ events

unfoldable pub store_events : TextPair → List ℕ → InMemoryRateLimiter → InMemoryRateLimiter
store_events bucket events s = record s { events = Dict.put s.events bucket events }

-- `now` is read by `_prune`, `later` for the new event.
unfoldable pub add_or_raise : TextPair → RateLimitRule → ℕ → ℕ → Exec InMemoryRateLimiter (Unit {0})
add_or_raise bucket rule now later = do
  events ← gets (λ s. prune (bucket_events s bucket) rule now)
  modify (store_events bucket events)
  raise_if (leb rule.limit (length events)) rate_limit_exceeded
  modify (store_events bucket (events ++ later ∷ []))

unfoldable pub check_bucket : TextPair → RateLimitRule → ℕ → Exec InMemoryRateLimiter (Unit {0})
check_bucket bucket rule now = do
  events ← gets (λ s. prune (bucket_events s bucket) rule now)
  modify (store_events bucket events)
  raise_if (leb rule.limit (length events)) rate_limit_exceeded

abbrev pub api_key_bucket : String → TextPair
api_key_bucket key_prefix = record { left = "api_key"; right = key_prefix }

abbrev pub auth_failure_bucket : String → TextPair
auth_failure_bucket client_ip = record { left = "auth_failure"; right = client_ip }

unfoldable pub check_api_key : String → ℕ → ℕ → Exec InMemoryRateLimiter (Unit {0})
check_api_key key_prefix now later s =
    add_or_raise (api_key_bucket key_prefix) s.api_key_rule now later s

unfoldable pub check_auth_failures : String → ℕ → Exec InMemoryRateLimiter (Unit {0})
check_auth_failures client_ip now s =
    check_bucket (auth_failure_bucket client_ip) s.auth_failure_rule now s

unfoldable pub record_auth_failure : String → ℕ → ℕ → Exec InMemoryRateLimiter (Unit {0})
record_auth_failure client_ip now later s =
    add_or_raise (auth_failure_bucket client_ip) s.auth_failure_rule now later s
