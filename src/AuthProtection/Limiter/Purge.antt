-- ===== src/AuthProtection/Limiter/Purge.antt =====
-- The housekeeping of src/postara/auth_protection.py.
use postara.Prelude.{ℕ, ap, Option, arith, TextPair, ◌+◌, ◌-◌, ◌≤◌, ◌≡◌, ◌∙◌, text_pair_eq}
use postara.AuthProtection.{AuthProtectionConfig, AuthAttemptBucket}
use postara.AuthProtection.Store.{AttemptStore, is_expired, unexpired}
use postara.AuthProtection.Limiter.{is_over, purge_expired}
use postara.AuthProtection.Limiter.Lock.{active_view}

-- What is expired a window and a lock ago is over now and later.
active_view-unexpired :
    (c : AuthProtectionConfig) (now later : ℕ) (found : Option AuthAttemptBucket)
    → now ≤ later
    → active_view c later (unexpired (now - (c.window_seconds + c.lock_seconds)) found)
      ≡ active_view c later found
unfolding is_expired is_over
active_view-unexpired c now later found h = ground arith

-- `purge_expired` deletes no bucket that a later check or failure would still have counted.
pub purge_expired-active_view :
    (store : AttemptStore) (c : AuthProtectionConfig) (now later : ℕ) (k : TextPair)
    (s : store.State)
    → store.IsStore s
    → now ≤ later
    → active_view c later (store.get (purge_expired store c now s).1 k)
      ≡ active_view c later (store.get s k)
unfolding purge_expired
purge_expired-active_view store c now later k s valid h =
    ap (active_view c later)
      (store.get-purge_expired (now - (c.window_seconds + c.lock_seconds)) s k valid)
    ∙ active_view-unexpired c now later (store.get s k) h
