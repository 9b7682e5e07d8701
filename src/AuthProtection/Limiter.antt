-- ===== src/AuthProtection/Limiter.antt =====
-- `AuthAttemptLimiter` of src/postara/auth_protection.py over any store.
pub mod Lock
pub mod Streak
pub mod Check
pub mod Agreement
pub mod Purge
use postara.Errors.{auth_rate_limited, auth_challenge_required, auth_challenge_failed}
use postara.Exec.{returned, Exec, pure, modify, raise_if, ◌>>=◌, ◌>>◌}
use postara.Prelude.{
  ℕ, String, Bool, true, false, Option, none, some, ltb, leb, TextPair, ◌+◌, ◌-◌, ◌&&◌,
  if◌then◌else◌, ◌==◌, string_eq,
}
use postara.AuthProtection.{AuthProtectionConfig, AuthAttemptBucket, Network, Keys, bucket_keys}
use postara.AuthProtection.Store.{AttemptStore}

-- The readings of the clock for one bucket: the caller's own, and that of `_active_bucket`.
pub record Reads : Type 0 where
  pub now : ℕ
  pub active : ℕ

-- `locked_until is None or locked_until <= now`
abbrev pub is_unlocked : AuthAttemptBucket → ℕ → Bool
is_unlocked b now = elim b.locked_until [ none ↦ true | some until ↦ leb until now ]

-- `locked_until and locked_until > now`
abbrev pub is_locked : AuthAttemptBucket → ℕ → Bool
is_locked b now = elim b.locked_until [ none ↦ false | some until ↦ ltb now until ]

-- The test of `_active_bucket` for a bucket that has served its time.
unfoldable pub is_over : AuthProtectionConfig → ℕ → AuthAttemptBucket → Bool
is_over c now b = leb (b.window_started_at + c.window_seconds) now && is_unlocked b now

unfoldable pub needs_challenge : AuthProtectionConfig → AuthAttemptBucket → Bool
needs_challenge c b = c.challenge_enabled && leb c.challenge_threshold b.failure_count

-- `not challenge_token`
abbrev pub no_token : Option String → Bool
no_token none = true
no_token (some token) = token == ""

abbrev pub fresh_bucket : TextPair → ℕ → AuthAttemptBucket
fresh_bucket k now = record {
  bucket_type = k.left;
  bucket_key = k.right;
  failure_count = 0;
  window_started_at = now;
  locked_until = none;
  challenge_required_at = none;
  last_failure_at = none;
}

-- `bucket.challenge_required_at = bucket.challenge_required_at or now`, past the threshold.
mark_challenge : AuthProtectionConfig → ℕ → AuthAttemptBucket → AuthAttemptBucket
unfolding needs_challenge
mark_challenge c now b =
    if needs_challenge c b
    then record b {
      challenge_required_at = elim b.challenge_required_at [ none ↦ some now | some t ↦ some t ];
    }
    else b

set_lock : AuthProtectionConfig → ℕ → AuthAttemptBucket → AuthAttemptBucket
set_lock c now b =
    if ltb c.failure_limit b.failure_count
    then record b { locked_until = some (now + c.lock_seconds) }
    else b

-- The bucket that `_record_bucket_failure` writes back.
unfoldable pub bump : AuthProtectionConfig → ℕ → AuthAttemptBucket → AuthAttemptBucket
unfolding mark_challenge set_lock
bump c now b = set_lock c now (
    mark_challenge c now
      (record b { failure_count = b.failure_count + 1; last_failure_at = some now }))

module _ (store : AttemptStore) (c : AuthProtectionConfig) where
  abbrev pub drop_over :
      ℕ → TextPair → Option AuthAttemptBucket → Exec store.State (Option AuthAttemptBucket)
  drop_over now k none s = (returned none, s)
  drop_over now k (some b) s =
      if is_over c now b then (returned none, store.clear k s) else (returned (some b), s)

  unfoldable pub active_bucket : ℕ → TextPair → Exec store.State (Option AuthAttemptBucket)
  active_bucket now k s = drop_over now k (store.get s k) s

  abbrev pub judge : ℕ → Option String → Option AuthAttemptBucket → Exec store.State (Unit {0})
  judge now token none = pure tt
  judge now token (some b) = do
    raise_if (is_locked b now) auth_rate_limited
    raise_if (needs_challenge c b && no_token token) auth_challenge_required
    raise_if (needs_challenge c b) auth_challenge_failed

  unfoldable pub check_bucket : Option String → TextPair → Reads → Exec store.State (Unit {0})
  check_bucket token k t = do bucket ← active_bucket t.active k; judge t.now token bucket

  abbrev pub or_fresh : TextPair → ℕ → Option AuthAttemptBucket → AuthAttemptBucket
  or_fresh k now none = fresh_bucket k now
  or_fresh k now (some b) = b

  unfoldable pub record_bucket_failure : TextPair → Reads → Exec store.State (Unit {0})
  record_bucket_failure k t = do
    found ← active_bucket t.active k
    let bucket = bump c t.now (or_fresh k t.now found)
    modify (store.upsert t.now bucket)
    raise_if (is_locked bucket t.now) auth_rate_limited

  -- The two buckets of a call, the e-mail's first, with the readings for each.
  unfoldable pub check_keys : Keys → Option String → Reads → Reads → Exec store.State (Unit {0})
  check_keys (email, ip) token t u = do check_bucket token email t; check_bucket token ip u

  unfoldable pub record_keys : Keys → Reads → Reads → Exec store.State (Unit {0})
  record_keys (email, ip) t u = do record_bucket_failure email t; record_bucket_failure ip u

  unfoldable pub clear_keys : Keys → Exec store.State (Unit {0})
  clear_keys (email, ip) = do modify (store.clear email); modify (store.clear ip)

  module _ (network : Network) (action email client_ip : String) where
    unfoldable pub check : Option String → Reads → Reads → Exec store.State (Unit {0})
    check token t u =
        if c.enabled
        then check_keys (bucket_keys network action email client_ip) token t u
        else pure tt

    unfoldable pub record_failure : Reads → Reads → Exec store.State (Unit {0})
    record_failure t u =
        if c.enabled then record_keys (bucket_keys network action email client_ip) t u else pure tt

    unfoldable pub clear : Exec store.State (Unit {0})
    clear = if c.enabled then clear_keys (bucket_keys network action email client_ip) else pure tt

  -- The number of buckets that went, and the store.
  unfoldable pub purge_expired : ℕ → store.State → ℕ × store.State
  purge_expired now = store.purge_expired (now - (c.window_seconds + c.lock_seconds))
