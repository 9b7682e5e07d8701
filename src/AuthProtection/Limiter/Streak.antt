-- ===== src/AuthProtection/Limiter/Streak.antt =====
-- A streak of failures on one bucket within one window, in src/postara/auth_protection.py.
use postara.Exec.{Outcome, returned, raised}
use mathlib.Core.Path.{ap₂}
use postara.Prelude.{
  ℕ, refl, ap, inl, inr, Bool, true, false, not, none, some, List, [], arith, leb, TextPair,
  Bool-cases, All, beq_self, ◌+◌, ◌≤◌, ◌<◌, ◌≡◌, ◌∙◌, ◌∷◌, text_pair_eq,
}
use postara.AuthProtection.{AuthProtectionConfig, AuthAttemptBucket}
use postara.AuthProtection.Store.{AttemptStore, bucket_id}
use postara.AuthProtection.Limiter.{
  Reads, is_over, is_locked, bump, fresh_bucket, record_bucket_failure,
}
use postara.AuthProtection.Limiter.Lock.{
  active_view, IsFiled, after_failure, record_outcome, get-record_bucket_failure, bump-bucket_id,
  failure_count-bump, window_started_at-bump, locked_until-bump,
}

-- A call returned.
abbrev pub passed : Outcome (Unit {0}) → Bool
passed (returned _) = true
passed (raised _) = false

-- All readings lie before the end of the window that began at `start`.
abbrev pub InWindow : AuthProtectionConfig → ℕ → List Reads → Type 0
InWindow c start = All λ t. t.active < start + c.window_seconds

-- The answers that are due after `n` failures: as long as the limit is kept.
unfoldable pub due : ℕ → ℕ → List Reads → List Bool
due limit n [] = []
due limit n (t ∷ ts) = leb (n + 1) limit ∷ due limit (n + 1) ts

-- A bucket in its window, `n` failures old.
pub record Counts (c : AuthProtectionConfig) (k : TextPair) (start n : ℕ) (b : AuthAttemptBucket)
    : Type 0 where
  pub filed : bucket_id b ≡ k
  pub started : b.window_started_at ≡ start
  pub count : b.failure_count ≡ n
  pub open_below : n ≤ c.failure_limit → b.locked_until ≡ none

bump-Counts :
    (c : AuthProtectionConfig) (k : TextPair) (start n now : ℕ) (b : AuthAttemptBucket)
    → Counts c k start n b
    → Counts c k start (n + 1) (bump c now b)
bump-Counts c k start n now b h = record {
  filed = bump-bucket_id c now b ∙ h.filed;
  started = window_started_at-bump c now b ∙ h.started;
  count = failure_count-bump c now b ∙ ap (λ m. m + 1) h.count;
  open_below =
      λ le. locked_until-bump c now b ∙ ground (arith, h.count, h.open_below (omega arith));
}

bump-locked :
    (c : AuthProtectionConfig) (k : TextPair) (start n now : ℕ) (b : AuthAttemptBucket)
    → 0 < c.lock_seconds
    → Counts c k start n b
    → is_locked (bump c now b) now ≡ not (leb (n + 1) c.failure_limit)
bump-locked c k start n now b pos h = elim (Bool-cases (leb (n + 1) c.failure_limit)) [
  | inl below ↦ rw (locked_until-bump c now b, h.open_below (ground arith), h.count) (ground arith)
  | inr above ↦ rw (locked_until-bump c now b, h.count) (ground arith)
]

module _ (store : AttemptStore) (c : AuthProtectionConfig) (k : TextPair) where
  still_active :
      (start n : ℕ) (t : Reads) (s : store.State) (b : AuthAttemptBucket)
      → t.active < start + c.window_seconds
      → store.get s k ≡ some b
      → Counts c k start n b
      → active_view c t.active (store.get s k) ≡ some b
  unfolding is_over
  still_active start n t s b early held h = rw held (ground (arith, h.started))

  after_failure-counted :
      (start n : ℕ) (t : Reads) (s : store.State) (b : AuthAttemptBucket)
      → t.active < start + c.window_seconds
      → store.get s k ≡ some b
      → Counts c k start n b
      → after_failure store c k t s ≡ bump c t.now b
  after_failure-counted start n t s b early held h = rw (still_active start n t s b early held h)

  get-counted :
      (start n : ℕ) (t : Reads) (s : store.State) (b : AuthAttemptBucket)
      → t.active < start + c.window_seconds
      → store.get s k ≡ some b
      → Counts c k start n b
      → store.get (record_bucket_failure store c k t s).1 k ≡ some (bump c t.now b)
  get-counted start n t s b early held h =
      get-record_bucket_failure store c k k t s (rw held h.filed)
      ∙ rw (beq_self k, after_failure-counted start n t s b early held h)

  passed-counted :
      (start n : ℕ) (t : Reads) (s : store.State) (b : AuthAttemptBucket)
      → 0 < c.lock_seconds
      → t.active < start + c.window_seconds
      → store.get s k ≡ some b
      → Counts c k start n b
      → passed (record_bucket_failure store c k t s).0 ≡ leb (n + 1) c.failure_limit
  passed-counted start n t s b pos early held h =
      rw
        (
          record_outcome store c k t s,
          after_failure-counted start n t s b early held h,
          bump-locked c k start n t.now b pos h,
        )
        (ground arith)

  -- The answers to a streak of failures, one call after another.
  unfoldable pub answers : List Reads → store.State → List Bool
  answers [] s = []
  answers (t ∷ ts) s = let (r, s') = record_bucket_failure store c k t s in passed r ∷ answers ts s'

  pub answers-eq-due :
      (start n : ℕ) (ts : List Reads) (s : store.State) (b : AuthAttemptBucket)
      → 0 < c.lock_seconds
      → InWindow c start ts
      → store.get s k ≡ some b
      → Counts c k start n b
      → answers ts s ≡ due c.failure_limit n ts
  unfolding answers due
  answers-eq-due start n [] s b pos early held h = refl
  answers-eq-due start n (t ∷ ts) s b pos early held h =
      ap₂ ◌∷◌ (passed-counted start n t s b pos early.0 held h) (
        answers-eq-due start (n + 1) ts (record_bucket_failure store c k t s).1 (bump c t.now b) pos
          early.1 (get-counted start n t s b early.0 held h) (bump-Counts c k start n t.now b h))

  fresh-Counts : (now : ℕ) → Counts c k now 0 (fresh_bucket k now)
  fresh-Counts now = record { filed = refl; started = refl; count = refl; open_below = λ _. refl }

  after_failure-fresh :
      (t : Reads) (s : store.State)
      → active_view c t.active (store.get s k) ≡ none
      → after_failure store c k t s ≡ bump c t.now (fresh_bucket k t.now)
  after_failure-fresh t s none_yet = rw none_yet

  -- A streak of failures on one bucket (the e-mail's or the address's), all read before the
  -- window that its first failure opens has passed: where the store shows no active bucket at
  -- first, `_record_bucket_failure` returns for the first `failure_limit` failures, and raises
  -- `AuthRateLimited` for every one after them. (The lock lasts some time, and what the store
  -- holds under the key is a bucket of the key.)
  pub answers-streak :
      (t : Reads) (ts : List Reads) (s : store.State)
      → 0 < c.lock_seconds
      → IsFiled store c k (store.get s k)
      → active_view c t.active (store.get s k) ≡ none
      → InWindow c t.now ts
      → answers (t ∷ ts) s ≡ due c.failure_limit 0 (t ∷ ts)
  unfolding answers due
  answers-streak t ts s pos filed none_yet early =
      let first = after_failure-fresh t s none_yet in
      ap₂ ◌∷◌
        (rw
          (
            record_outcome store c k t s,
            first,
            bump-locked c k t.now 0 t.now _ pos (fresh-Counts t.now),
          )
          (ground arith))
        (answers-eq-due t.now 1 ts (record_bucket_failure store c k t s).1
          (bump c t.now (fresh_bucket k t.now)) pos early
          (get-record_bucket_failure store c k k t s filed ∙ rw (beq_self k, first))
          (bump-Counts c k t.now 0 t.now (fresh_bucket k t.now) (fresh-Counts t.now)))
