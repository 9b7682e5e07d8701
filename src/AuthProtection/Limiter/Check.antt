-- ===== src/AuthProtection/Limiter/Check.antt =====
-- What `check` and `clear` of src/postara/auth_protection.py answer.
use postara.Errors.{auth_rate_limited, auth_challenge_failed}
use postara.Exec.{returned, raised, ◌>>◌}
use postara.Prelude.{
  ℕ, String, refl, ap, inl, inr, true, false, Option, none, some, arith, TextPair, text_pair_eq,
  Bool-cases, beq_self, ◌+◌, ◌≤◌, ◌<◌, ◌≡◌, ◌∙◌, if◌then◌else◌, ◌==◌, string_eq,
}
use postara.AuthProtection.{AuthProtectionConfig, AuthAttemptBucket, Keys}
use postara.AuthProtection.Store.{AttemptStore}
use postara.AuthProtection.Limiter.{
  Reads, is_over, is_locked, needs_challenge, no_token, judge, check_bucket, check_keys, clear_keys,
  record_bucket_failure, or_fresh, bump,
}
use postara.AuthProtection.Limiter.Lock.{
  active_view, IsFiled, after_failure, active_bucket_lem, get-active_bucket, record_outcome,
  get-record_bucket_failure, locked_until-bump, failure_count-bump,
}

module _ (store : AttemptStore) (c : AuthProtectionConfig) where
  check_bucket_lem :
      (token : Option String) (k : TextPair) (t : Reads) (s : store.State)
      → (check_bucket store c token k t s).0
        ≡ (judge store c t.now token (active_view c t.active (store.get s k)) s).0
  unfolding check_bucket
  check_bucket_lem token k t s = rw (active_bucket_lem store c t.active k s) (ground arith)

  get-check_bucket :
      (token : Option String) (k j : TextPair) (t : Reads) (s : store.State)
      → store.get (check_bucket store c token k t s).1 j
        ≡ (if k == j then active_view c t.active (store.get s k) else store.get s j)
  unfolding check_bucket
  get-check_bucket token k j t s = ground (arith, get-active_bucket store c t.active k j s)

  -- A bucket that is locked is active.
  locked_view :
      (b : AuthAttemptBucket) (t : Reads)
      → t.active ≤ t.now
      → is_locked b t.now ≡ true
      → active_view c t.active (some b) ≡ some b
  unfolding is_over
  locked_view b t h l = ground arith

  pub check_bucket-locked :
      (token : Option String) (k : TextPair) (t : Reads) (s : store.State) (b : AuthAttemptBucket)
      → t.active ≤ t.now
      → store.get s k ≡ some b
      → is_locked b t.now ≡ true
      → (check_bucket store c token k t s).0 ≡ raised auth_rate_limited
  check_bucket-locked token k t s b h held l =
      rw (check_bucket_lem token k t s, held, locked_view b t h l) (ground arith)

  locked_past :
      (now : ℕ) (b : AuthAttemptBucket)
      → c.failure_limit < (bump c now b).failure_count
      → (bump c now b).locked_until ≡ some (now + c.lock_seconds)
  locked_past now b past = ground (arith, locked_until-bump c now b, failure_count-bump c now b)

  -- The failure that takes the count past the limit raises, and from then on for `lock_seconds`
  -- every check of that bucket raises `AuthRateLimited`, with a challenge token or without.
  pub record-locks :
      (k : TextPair) (t u : Reads) (token : Option String) (s : store.State)
      → IsFiled store c k (store.get s k)
      → c.failure_limit < (after_failure store c k t s).failure_count
      → u.active ≤ u.now
      → t.now ≤ u.now
      → u.now < t.now + c.lock_seconds
      → ((record_bucket_failure store c k t s).0 ≡ raised auth_rate_limited)
        × ((check_bucket store c token k u (record_bucket_failure store c k t s).1).0
            ≡ raised auth_rate_limited)
  record-locks k t u token s filed past order later soon =
      let lock : (after_failure store c k t s).locked_until ≡ some (t.now + c.lock_seconds) =
        locked_past t.now (or_fresh store c k t.now (active_view c t.active (store.get s k)))
          past in
      (
        rw (record_outcome store c k t s, lock) (ground arith),
        check_bucket-locked token k u (record_bucket_failure store c k t s).1
            (after_failure store c k t s) order
            (get-record_bucket_failure store c k k t s filed ∙ rw (beq_self k))
            (rw lock (ground arith)),
      )

  passes_none :
      (token : Option String) (k : TextPair) (t : Reads) (s : store.State)
      → store.get s k ≡ none
      → (check_bucket store c token k t s).0 ≡ returned tt
  passes_none token k t s h = rw (check_bucket_lem token k t s, h) refl

  -- After a success has cleared both buckets of a call, the next check of the two returns, at
  -- any time and with any token.
  pub clear-check_keys :
      (keys : Keys) (token : Option String) (t u : Reads) (s : store.State)
      → (check_keys store c keys token t u (clear_keys store c keys s).1).0 ≡ returned tt
  unfolding check_keys clear_keys
  clear-check_keys (email, ip) token t u s = ground (
    arith,
    passes_none token email t (clear_keys store c (email, ip) s).1 (
        rw (store.get-clear ip (store.clear email s) email, store.get-clear email s email)
          (ground (arith, beq_self email))),
    passes_none token ip u
        (check_bucket store c token email t (clear_keys store c (email, ip) s).1).1
        (get-check_bucket token email ip t (clear_keys store c (email, ip) s).1
          ∙ ground (
            arith,
            store.get-clear ip (store.clear email s) email,
            store.get-clear email s email,
            store.get-clear ip (store.clear email s) ip,
            beq_self ip,
            beq_self email,
          )),
  )

  -- A challenge that the e-mail's bucket asks for is raised before the address's is looked at.
  pub check_keys-challenge_first :
      (keys : Keys) (token : Option String) (t u : Reads) (s : store.State) (b : AuthAttemptBucket)
      → active_view c t.active (store.get s keys.0) ≡ some b
      → is_locked b t.now ≡ false
      → needs_challenge c b ≡ true
      → no_token token ≡ false
      → (check_keys store c keys token t u s).0 ≡ raised auth_challenge_failed
  unfolding check_keys
  check_keys-challenge_first (email, ip) token t u s b held free asks given =
      let first : (check_bucket store c token email t s).0 ≡ raised auth_challenge_failed =
        check_bucket_lem token email t s ∙ rw held (ground arith) in
      rw (first, ◌>>◌) refl

  -- Where nothing is counted for the e-mail, a locked address is refused.
  pub check_keys-locked :
      (keys : Keys) (token : Option String) (t u : Reads) (s : store.State) (b : AuthAttemptBucket)
      → store.get s keys.0 ≡ none
      → store.get s keys.1 ≡ some b
      → u.active ≤ u.now
      → is_locked b u.now ≡ true
      → (check_keys store c keys token t u s).0 ≡ raised auth_rate_limited
  unfolding check_keys
  check_keys-locked (email, ip) token t u s b fresh held order l =
      let apart : (email == ip) ≡ false = elim (Bool-cases (email == ip)) [
        | inl same ↦
            ground
              (arith, fresh, held, same, ap (store.get s) ((text_pair_eq.beq_iff email ip).0 same))
        | inr differs ↦ differs
      ] in
      let kept = get-check_bucket token email ip t s ∙ rw apart held in
      rw (passes_none token email t s fresh, ◌>>◌)
        (check_bucket-locked token ip u (check_bucket store c token email t s).1 b order kept l)
