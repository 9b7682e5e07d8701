-- ===== src/AuthProtection/Limiter/Agreement.antt =====
-- The limiter of src/postara/auth_protection.py over two stores.
use postara.Errors.{auth_rate_limited, auth_challenge_required, auth_challenge_failed, Error}
use postara.Exec.{Outcome, returned, raised, Exec, modify, raise_if, continue, ◌>>=◌}
use mathlib.Core.Path.{ap₂}
use postara.Prelude.{
  ℕ, String, refl, subst, Bool, true, false, Option, none, some, List, [], TextPair, ◌≡◌, ◌&&◌, ◌∷◌,
  text_pair_eq,
}
use postara.AuthProtection.{AuthProtectionConfig, AuthAttemptBucket, Keys}
use postara.AuthProtection.Store.{AttemptStore}
use postara.AuthProtection.Limiter.{
  Reads, is_locked, needs_challenge, no_token, bump, or_fresh, judge, active_bucket, check_bucket,
  check_keys, clear_keys, record_bucket_failure, record_keys,
}
use postara.AuthProtection.Limiter.Lock.{active_bucket_lem, get-active_bucket}

-- What the application does to its limiter, with the readings of the clock.
pub data Call : Type 0 where
  checks : Keys → Option String → Reads → Reads → Call
  fails : Keys → Reads → Reads → Call
  succeeds : Keys → Call

unfoldable pub call :
    (store : AttemptStore) → AuthProtectionConfig → Call → Exec store.State (Unit {0})
call store c (checks keys token t u) = check_keys store c keys token t u
call store c (fails keys t u) = record_keys store c keys t u
call store c (succeeds keys) = clear_keys store c keys

unfoldable pub calls :
    (store : AttemptStore)
    → AuthProtectionConfig
    → List Call
    → store.State
    → List (Outcome (Unit {0}))
calls store c [] s = []
calls store c (a ∷ rest) s = let (r, s') = call store c a s in r ∷ calls store c rest s'

module _ (A B : AttemptStore) (c : AuthProtectionConfig) where
  abbrev pub Agree : A.State → B.State → Type 0
  Agree a b = (k : TextPair) → A.get a k ≡ B.get b k

  -- Two actions end alike, in stores that agree.
  abbrev Alike : {X : Type 0} → Exec A.State X → Exec B.State X → Type 0
  Alike m n = (a : A.State) (b : B.State) → Agree a b → ((m a).0 ≡ (n b).0) × Agree (m a).1 (n b).1

  active_bucket-Alike :
      (now : ℕ) (k : TextPair) → Alike (active_bucket A c now k) (active_bucket B c now k)
  active_bucket-Alike now k a b h = (
    rw (active_bucket_lem A c now k a, active_bucket_lem B c now k b, h k) refl,
    λ j. rw (get-active_bucket A c now k j a, get-active_bucket B c now k j b, h k, h j) refl,
  )

  continue-Alike :
      {X Y : Type 0} (r : Outcome X) (f : X → Exec A.State Y) (g : X → Exec B.State Y)
      → ((x : X) → Alike (f x) (g x))
      → Alike (continue r f) (continue r g)
  continue-Alike (returned x) f g each a b h = each x a b h
  continue-Alike (raised x) f g each a b h = (refl, h)

  bind-Alike :
      {X Y : Type 0} (m : Exec A.State X) (n : Exec B.State X) (f : X → Exec A.State Y)
      (g : X → Exec B.State Y)
      → Alike m n
      → ((x : X) → Alike (f x) (g x))
      → Alike (m >>= f) (n >>= g)
  bind-Alike m n f g first each a b h =
      subst
        (λ q.
          ((continue (m a).0 f (m a).1).0 ≡ (continue q g (n b).1).0)
          × Agree (continue (m a).0 f (m a).1).1 (continue q g (n b).1).1)
        (first a b h).0 (continue-Alike (m a).0 f g each (m a).1 (n b).1 (first a b h).1)

  raise_if-Alike : (test : Bool) (e : Error) → Alike (raise_if test e) (raise_if test e)
  raise_if-Alike true e a b h = (refl, h)
  raise_if-Alike false e a b h = (refl, h)

  judge-Alike :
      (now : ℕ) (token : Option String) (found : Option AuthAttemptBucket)
      → Alike (judge A c now token found) (judge B c now token found)
  judge-Alike now token none a b h = (refl, h)
  judge-Alike now token (some x) a b h =
      let locked = raise_if-Alike (is_locked x now) auth_rate_limited in
      let required =
        raise_if-Alike (needs_challenge c x && no_token token) auth_challenge_required in
      let failed = raise_if-Alike (needs_challenge c x) auth_challenge_failed in
      bind-Alike _ _ _ _ locked (λ _. bind-Alike _ _ _ _ required λ _. failed) a b h

  check_bucket-Alike :
      (token : Option String) (k : TextPair) (t : Reads)
      → Alike (check_bucket A c token k t) (check_bucket B c token k t)
  unfolding check_bucket
  check_bucket-Alike token k t =
      bind-Alike _ _ _ _ (active_bucket-Alike t.active k) (judge-Alike t.now token)

  upsert-Alike :
      (now : ℕ) (x : AuthAttemptBucket) → Alike (modify (A.upsert now x)) (modify (B.upsert now x))
  upsert-Alike now x a b h =
      (refl, λ j. rw (A.get-upsert now x a j, B.get-upsert now x b j, h j) refl)

  clear-Alike : (k : TextPair) → Alike (modify (A.clear k)) (modify (B.clear k))
  clear-Alike k a b h = (refl, λ j. rw (A.get-clear k a j, B.get-clear k b j, h j) refl)

  record_bucket_failure-Alike :
      (k : TextPair) (t : Reads)
      → Alike (record_bucket_failure A c k t) (record_bucket_failure B c k t)
  unfolding record_bucket_failure
  record_bucket_failure-Alike k t = bind-Alike _ _ _ _ (active_bucket-Alike t.active k) λ found.
      let bucket = bump c t.now (or_fresh A c k t.now found) in
      bind-Alike _ _ _ _ (upsert-Alike t.now bucket)
        λ _. raise_if-Alike (is_locked bucket t.now) auth_rate_limited

  call-Alike : (x : Call) → Alike (call A c x) (call B c x)
  unfolding call check_keys record_keys clear_keys
  call-Alike (checks (email, ip) token t u) =
      bind-Alike _ _ _ _ (check_bucket-Alike token email t) λ _. check_bucket-Alike token ip u
  call-Alike (fails (email, ip) t u) =
      bind-Alike _ _ _ _ (record_bucket_failure-Alike email t) λ _. record_bucket_failure-Alike ip u
  call-Alike (succeeds (email, ip)) = bind-Alike _ _ _ _ (clear-Alike email) λ _. clear-Alike ip

  -- Over two stores that show the same buckets, any sequence of checks, failures and successes
  -- has the same answers, exceptions included.
  pub calls-same :
      (xs : List Call) (a : A.State) (b : B.State) → Agree a b → calls A c xs a ≡ calls B c xs b
  unfolding calls
  calls-same [] a b h = refl
  calls-same (x ∷ xs) a b h =
      let step = call-Alike x a b h in
      ap₂ ◌∷◌ step.0 (calls-same xs (call A c x a).1 (call B c x b).1 step.1)
