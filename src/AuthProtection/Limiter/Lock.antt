-- ===== src/AuthProtection/Limiter/Lock.antt =====
-- How the limiter of src/postara/auth_protection.py counts and locks, seen through `get`.
use postara.Errors.{auth_rate_limited}
use postara.Exec.{returned, raised}
use postara.Prelude.{
  ℕ, Option, none, some, arith, ltb, TextPair, text_pair_eq, ◌+◌, ◌≡◌, ◌∙◌, if◌then◌else◌, ◌==◌,
  string_eq,
}
use postara.AuthProtection.{AuthProtectionConfig, AuthAttemptBucket}
use postara.AuthProtection.Store.{AttemptStore, bucket_id}
use postara.AuthProtection.Limiter.{
  Reads, is_over, is_locked, bump, or_fresh, active_bucket, record_bucket_failure,
}

-- A bucket as `_active_bucket` gives it.
abbrev pub active_view :
    AuthProtectionConfig → ℕ → Option AuthAttemptBucket → Option AuthAttemptBucket
active_view c now none = none
active_view c now (some b) = if is_over c now b then none else some b

pub bump-bucket_id :
    (c : AuthProtectionConfig) (now : ℕ) (b : AuthAttemptBucket)
    → bucket_id (bump c now b) ≡ bucket_id b
unfolding bump
bump-bucket_id c now b = ground arith

pub failure_count-bump :
    (c : AuthProtectionConfig) (now : ℕ) (b : AuthAttemptBucket)
    → (bump c now b).failure_count ≡ b.failure_count + 1
unfolding bump
failure_count-bump c now b = ground arith

pub window_started_at-bump :
    (c : AuthProtectionConfig) (now : ℕ) (b : AuthAttemptBucket)
    → (bump c now b).window_started_at ≡ b.window_started_at
unfolding bump
window_started_at-bump c now b = ground arith

pub locked_until-bump :
    (c : AuthProtectionConfig) (now : ℕ) (b : AuthAttemptBucket)
    → (bump c now b).locked_until ≡ (
        if ltb c.failure_limit (b.failure_count + 1)
        then some (now + c.lock_seconds)
        else b.locked_until)
unfolding bump
locked_until-bump c now b = ground arith

module _ (store : AttemptStore) (c : AuthProtectionConfig) where
  -- What a store holds of the key is a bucket of that key.
  abbrev pub IsFiled : TextPair → Option AuthAttemptBucket → Type 0
  IsFiled k none = Unit {0}
  IsFiled k (some b) = bucket_id b ≡ k

  pub active_bucket_lem :
      (now : ℕ) (k : TextPair) (s : store.State)
      → (active_bucket store c now k s).0 ≡ returned (active_view c now (store.get s k))
  unfolding active_bucket
  active_bucket_lem now k s = ground arith

  -- Dropping a bucket that is over changes no other, and none that counts.
  pub get-active_bucket :
      (now : ℕ) (k j : TextPair) (s : store.State)
      → store.get (active_bucket store c now k s).1 j
        ≡ (if k == j then active_view c now (store.get s k) else store.get s j)
  unfolding active_bucket
  get-active_bucket now k j s = ground (arith, store.get-clear k s j, text_pair_eq.beq_iff k j)

  -- The bucket that a failure leaves behind.
  abbrev pub after_failure : TextPair → Reads → store.State → AuthAttemptBucket
  after_failure k t s =
      bump c t.now (or_fresh store c k t.now (active_view c t.active (store.get s k)))

  after_failure-bucket_id :
      (k : TextPair) (t : Reads) (s : store.State)
      → IsFiled k (store.get s k)
      → bucket_id (after_failure k t s) ≡ k
  after_failure-bucket_id k t s filed =
      bump-bucket_id c t.now (or_fresh store c k t.now (active_view c t.active (store.get s k)))
      ∙ ground arith

  pub record_outcome :
      (k : TextPair) (t : Reads) (s : store.State)
      → (record_bucket_failure store c k t s).0
        ≡ (if is_locked (after_failure k t s) t.now then raised auth_rate_limited else returned tt)
  unfolding record_bucket_failure
  record_outcome k t s = rw (active_bucket_lem t.active k s) (ground arith)

  pub get-record_bucket_failure :
      (k j : TextPair) (t : Reads) (s : store.State)
      → IsFiled k (store.get s k)
      → store.get (record_bucket_failure store c k t s).1 j
        ≡ (if k == j then some (after_failure k t s) else store.get s j)
  unfolding record_bucket_failure
  get-record_bucket_failure k j t s filed = ground (
    arith,
    active_bucket_lem t.active k s,
    get-active_bucket t.active k j s,
    store.get-upsert t.now (after_failure k t s) (active_bucket store c t.active k s).1 j,
    after_failure-bucket_id k t s filed,
  )
