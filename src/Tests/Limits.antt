-- ===== src/Tests/Limits.antt =====
-- Runs of the two limiters, src/postara/rate_limit.py and src/postara/auth_protection.py.
use postara.Errors.{auth_rate_limited}
use postara.Exec.{returned, raised}
use postara.Prelude.{
  ℕ, refl, true, false, none, some, List, [], arith, TextPair, text_pair_beq, ◌≡◌, ◌∷◌,
}
use postara.RateLimit.{RateLimitRule, InMemoryRateLimiter, api_key_bucket, bucket_events}
use postara.RateLimit.Sliding.{Attempt, verdicts, alive, IsWithin}
use postara.RateLimit.Refinement
use postara.RateLimit.Refinement.{answers-api_key}
use postara.RateLimit.Window.{let_through, answers-IsWithin}
use postara.AuthProtection.{AuthProtectionConfig, AuthAttemptBucket, Keys}
use postara.AuthProtection.Store.Memory.{memory_store}
use postara.AuthProtection.Store.Sql.{sql_store, BucketTable}
use postara.AuthProtection.Store.Sql
use postara.AuthProtection.Limiter.{
  Reads, is_over, bump, check_bucket, check_keys, clear_keys, record_bucket_failure, purge_expired,
}
use postara.AuthProtection.Limiter.Lock.{active_view}
use postara.AuthProtection.Limiter.Streak
use postara.AuthProtection.Limiter.Streak.{due, answers-streak}
use postara.AuthProtection.Limiter.Check.{record-locks, clear-check_keys}
use postara.AuthProtection.Limiter.Purge.{purge_expired-active_view}
use postara.AuthProtection.Limiter.Agreement.{Call, checks, fails, succeeds, calls, calls-same}
use postara.Dict
use postara.Dict.{Dict}

abbrev two_a_minute : RateLimitRule
two_a_minute = record { limit = 2; window_seconds = 60 }

abbrev limiter : InMemoryRateLimiter
limiter = record { api_key_rule = two_a_minute; auth_failure_rule = two_a_minute; events = [] }

abbrev at : ℕ → Attempt
at t = record { now = t; later = t }

-- The third call in a minute is refused; the fourth comes when the first has left the window.
answers-api_key_example :
    Refinement.answers (api_key_bucket "k") two_a_minute limiter (at 0 ∷ at 10 ∷ at 20 ∷ at 60 ∷ [])
    ≡ true ∷ true ∷ false ∷ true ∷ []
unfolding bucket_events Dict.get verdicts alive
answers-api_key_example = answers-api_key limiter "k" (at 0 ∷ at 10 ∷ at 20 ∷ at 60 ∷ []) refl (
  omega arith,
  omega arith,
  (omega arith, omega arith, (omega arith, omega arith, (omega arith, omega arith, tt))),
)

answers-IsWithin_example : IsWithin 2 60 (
    let_through
      (at 0 ∷ at 10 ∷ at 20 ∷ at 60 ∷ [])
      (Refinement.answers
        (api_key_bucket "k")
        two_a_minute
        limiter
        (at 0 ∷ at 10 ∷ at 20 ∷ at 60 ∷ []))
      [])
unfolding bucket_events Dict.get
answers-IsWithin_example = answers-IsWithin limiter "k" (at 0 ∷ at 10 ∷ at 20 ∷ at 60 ∷ []) refl (
  omega arith,
  omega arith,
  (omega arith, omega arith, (omega arith, omega arith, (omega arith, omega arith, tt))),
)

abbrev config : AuthProtectionConfig
config = record {
  enabled = true;
  challenge_enabled = true;
  failure_limit = 2;
  challenge_threshold = 2;
  window_seconds = 900;
  lock_seconds = 600;
}

abbrev reads : ℕ → Reads
reads t = record { now = t; active = t }

abbrev email_key : TextPair
email_key = record { left = "login:email"; right = "a@b.c" }

abbrev ip_key : TextPair
ip_key = record { left = "login:ip"; right = "10.0.0.1" }

abbrev keys : Keys
keys = (email_key, ip_key)

abbrev no_buckets : Dict TextPair AuthAttemptBucket
no_buckets = []

-- Two failures are let through, the third is refused.
answers-streak_example :
    Streak.answers memory_store config email_key (reads 5 ∷ reads 6 ∷ reads 7 ∷ []) no_buckets
    ≡ true ∷ true ∷ false ∷ []
unfolding Dict.get due
answers-streak_example =
    answers-streak memory_store config email_key (reads 5) (reads 6 ∷ reads 7 ∷ []) no_buckets
      (omega arith) tt refl (omega arith, (omega arith, tt))

abbrev failed_twice : AuthAttemptBucket
failed_twice = record {
  bucket_type = "login:email";
  bucket_key = "a@b.c";
  failure_count = 2;
  window_started_at = 5;
  locked_until = none;
  challenge_required_at = some 6;
  last_failure_at = some 6;
}

abbrev one_bucket : Dict TextPair AuthAttemptBucket
one_bucket = (email_key, failed_twice) ∷ []

record-locks_example :
    ((record_bucket_failure memory_store config email_key (reads 7) one_bucket).0
      ≡ raised auth_rate_limited)
    × ((check_bucket memory_store config
          (some "token")
          email_key
          (reads 99)
          (record_bucket_failure memory_store config email_key (reads 7) one_bucket).1).0
        ≡ raised auth_rate_limited)
unfolding Dict.get bump is_over text_pair_beq
record-locks_example =
    record-locks memory_store config email_key (reads 7) (reads 99) (some "token") one_bucket refl
      (omega arith) (omega arith) (omega arith) (omega arith)

clear-check_keys_example :
    (check_keys memory_store config keys none
      (reads 8)
      (reads 8)
      (clear_keys memory_store config keys one_bucket).1).0
    ≡ returned tt
clear-check_keys_example =
    clear-check_keys memory_store config keys none (reads 8) (reads 8) one_bucket

purge_expired-active_view_example :
    active_view config 9000
      (memory_store.get (purge_expired memory_store config 8000 one_bucket).1 email_key)
    ≡ active_view config 9000 (memory_store.get one_bucket email_key)
unfolding Dict.get
purge_expired-active_view_example =
    purge_expired-active_view memory_store config 8000 9000 email_key one_bucket (refl, tt)
      (omega arith)

abbrev no_rows : BucketTable
no_rows = record { rows = []; next_id = 1 }

abbrev some_calls : List Call
some_calls =
    fails keys (reads 5) (reads 5) ∷ checks keys none (reads 6) (reads 6) ∷ succeeds keys ∷ []

calls-same_example :
    calls memory_store config some_calls no_buckets ≡ calls sql_store config some_calls no_rows
unfolding Dict.get Sql.get
calls-same_example =
    calls-same memory_store sql_store config some_calls no_buckets no_rows (λ k. refl)
