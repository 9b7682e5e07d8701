-- ===== src/AuthProtection/Store.antt =====
-- The two stores of src/postara/auth_protection.py behind one interface. The limiter knows a store
-- by `AttemptStore` alone: what `get` shows after each operation.
pub mod Memory
pub mod Sql
use postara.Prelude.{
  ℕ, Bool, true, Option, none, some, ltb, TextPair, ◌≡◌, ◌&&◌, if◌then◌else◌, ◌==◌, text_pair_eq,
}
use postara.AuthProtection.{AuthAttemptBucket}

abbrev pub bucket_id : AuthAttemptBucket → TextPair
bucket_id b = record { left = b.bucket_type; right = b.bucket_key }

-- `bucket.window_started_at < cutoff and (bucket.locked_until is None or … < cutoff)`
unfoldable pub is_expired : ℕ → AuthAttemptBucket → Bool
is_expired cutoff b =
    ltb b.window_started_at cutoff
    && elim b.locked_until [ none ↦ true | some until ↦ ltb until cutoff ]

abbrev pub unexpired : ℕ → Option AuthAttemptBucket → Option AuthAttemptBucket
unexpired cutoff none = none
unexpired cutoff (some b) = if is_expired cutoff b then none else some b

-- `upsert` is given the time, which the database store writes down.
pub record AttemptStore : Type 1 where
  pub State : Type 0
  pub IsStore : State → Type 0
  pub get : State → TextPair → Option AuthAttemptBucket
  pub upsert : ℕ → AuthAttemptBucket → State → State
  pub clear : TextPair → State → State
  pub purge_expired : ℕ → State → ℕ × State
  pub upsert-IsStore :
      (now : ℕ) (b : AuthAttemptBucket) (s : State) → IsStore s → IsStore (upsert now b s)
  pub clear-IsStore : (k : TextPair) (s : State) → IsStore s → IsStore (clear k s)
  pub purge_expired-IsStore : (t : ℕ) (s : State) → IsStore s → IsStore (purge_expired t s).1
  pub get-upsert :
      (now : ℕ) (b : AuthAttemptBucket) (s : State) (k : TextPair)
      → get (upsert now b s) k ≡ (if bucket_id b == k then some b else get s k)
  pub get-clear :
      (j : TextPair) (s : State) (k : TextPair)
      → get (clear j s) k ≡ (if j == k then none else get s k)
  pub get-purge_expired :
      (cutoff : ℕ) (s : State) (k : TextPair)
      → IsStore s
      → get (purge_expired cutoff s).1 k ≡ unexpired cutoff (get s k)
