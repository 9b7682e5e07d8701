-- ===== src/RateLimit/Refinement.antt =====
-- The limiter of src/postara/rate_limit.py beside the sliding window of `Sliding`.
use postara.Exec.{Outcome, returned, raised}
use mathlib.Core.Path.{ap₂}
use postara.Prelude.{
  ℕ, String, refl, Bool, true, false, List, [], arith, leb, TextPair, length, beq_self, ◌+◌, ◌≤◌,
  ◌<◌, ◌≡◌, ◌∙◌, ◌∷◌, ◌++◌, if◌then◌else◌, text_pair_eq,
}
use postara.RateLimit.Sliding.{Attempt, alive, admits, admit, IsTimed, verdicts}
use postara.RateLimit.{
  RateLimitRule, InMemoryRateLimiter, bucket_events, prune, store_events, add_or_raise,
  api_key_bucket,
}
use postara.Dict.{get-put}

-- Oldest first, between the bounds.
abbrev pub Ascending : ℕ → List ℕ → ℕ → Type 0
Ascending lo [] hi = lo ≤ hi
Ascending lo (x ∷ xs) hi = (lo ≤ x) × Ascending x xs hi

Ascending-bounds : (lo hi : ℕ) (xs : List ℕ) → Ascending lo xs hi → lo ≤ hi
Ascending-bounds lo hi [] h = h
Ascending-bounds lo hi (x ∷ xs) h = omega (arith, Ascending-bounds x hi xs h.1)

Ascending-lower : (m lo hi : ℕ) (xs : List ℕ) → m ≤ lo → Ascending lo xs hi → Ascending m xs hi
Ascending-lower m lo hi [] h a = omega arith
Ascending-lower m lo hi (x ∷ xs) h a = (omega arith, a.1)

Ascending-upper : (lo hi m : ℕ) (xs : List ℕ) → hi ≤ m → Ascending lo xs hi → Ascending lo xs m
Ascending-upper lo hi m [] h a = omega arith
Ascending-upper lo hi m (x ∷ xs) h a = (a.0, Ascending-upper x hi m xs h a.1)

Ascending-append :
    (lo hi x : ℕ) (xs : List ℕ) → hi ≤ x → Ascending lo xs hi → Ascending lo (xs ++ x ∷ []) x
Ascending-append lo hi x [] h a = (omega arith, omega arith)
Ascending-append lo hi x (y ∷ xs) h a = (a.0, Ascending-append y hi x xs h a.1)

prune-Ascending :
    (rule : RateLimitRule) (now lo hi : ℕ) (xs : List ℕ)
    → Ascending lo xs hi
    → Ascending lo (prune xs rule now) hi
unfolding prune
prune-Ascending rule now lo hi [] a = a
prune-Ascending rule now lo hi (x ∷ xs) a =
    ground
      (arith, Ascending-lower lo x hi (prune xs rule now), prune-Ascending rule now x hi xs a.1)

-- From `now` on, what `_prune` drops counts for nothing.
alive-prune :
    (rule : RateLimitRule) (now u : ℕ) (xs : List ℕ)
    → now ≤ u
    → alive rule.window_seconds u (prune xs rule now) ≡ alive rule.window_seconds u xs
unfolding prune alive
alive-prune rule now u [] h = refl
alive-prune rule now u (x ∷ xs) h = ground (arith, alive-prune rule now u xs h)

alive_all :
    (window now lo hi : ℕ) (xs : List ℕ)
    → Ascending lo xs hi
    → now < lo + window
    → alive window now xs ≡ length xs
unfolding alive
alive_all window now lo hi [] a h = refl
alive_all window now lo hi (x ∷ xs) a h = ground (arith, alive_all window now x hi xs a.1)

-- In an ascending queue what is left after `_prune` is what is in the window.
length-prune :
    (rule : RateLimitRule) (now lo hi : ℕ) (xs : List ℕ)
    → Ascending lo xs hi
    → length (prune xs rule now) ≡ alive rule.window_seconds now xs
unfolding prune alive
length-prune rule now lo hi [] a = refl
length-prune rule now lo hi (x ∷ xs) a =
    ground (arith, length-prune rule now x hi xs a.1, alive_all rule.window_seconds now x hi xs a.1)

alive-append :
    (window now x : ℕ) (xs : List ℕ) → alive window now (xs ++ x ∷ []) ≡ alive window now (x ∷ xs)
unfolding alive
alive-append window now x [] = refl
alive-append window now x (y ∷ xs) = ground (arith, alive-append window now x xs)

-- A queue stands for a history: it ascends, and from `time` on both count the same.
pub record Tracks (window : ℕ) (queue history : List ℕ) (time : ℕ) : Type 0 where
  pub sorted : Ascending 0 queue time
  pub counts : (u : ℕ) → time ≤ u → alive window u queue ≡ alive window u history

Tracks-prune :
    (rule : RateLimitRule) (queue history : List ℕ) (time now : ℕ)
    → time ≤ now
    → Tracks rule.window_seconds queue history time
    → Tracks rule.window_seconds (prune queue rule now) history now
Tracks-prune rule queue history time now h t = record {
  sorted = prune-Ascending rule now 0 now queue (Ascending-upper 0 time now queue h t.sorted);
  counts = λ u k. alive-prune rule now u queue k ∙ t.counts u (omega arith);
}

Tracks-append :
    (window : ℕ) (queue history : List ℕ) (time later : ℕ)
    → time ≤ later
    → Tracks window queue history time
    → Tracks window (queue ++ later ∷ []) (later ∷ history) later
unfolding alive
Tracks-append window queue history time later h t = record {
  sorted = Ascending-append 0 time later queue h t.sorted;
  counts = λ u k. alive-append window u later queue ∙ ground (arith, t.counts u (omega arith));
}

bucket_events-store_events :
    (bucket : TextPair) (events : List ℕ) (s : InMemoryRateLimiter)
    → bucket_events (store_events bucket events s) bucket ≡ events
unfolding bucket_events store_events
bucket_events-store_events bucket events s =
    ground (arith, get-put s.events bucket bucket events, beq_self bucket)

Tracks-later :
    (window : ℕ) (queue history : List ℕ) (time later : ℕ)
    → time ≤ later
    → Tracks window queue history time
    → Tracks window queue history later
Tracks-later window queue history time later h t = record {
  sorted = Ascending-upper 0 time later queue h t.sorted;
  counts = λ u k. t.counts u (omega arith);
}

Tracks-if :
    (full : Bool) (window : ℕ) (queue history : List ℕ) (time later : ℕ)
    → time ≤ later
    → Tracks window queue history time
    → Tracks window
        (if full then queue else queue ++ later ∷ [])
        (if full then history else later ∷ history)
        later
Tracks-if true window queue history time later h t =
    Tracks-later window queue history time later h t
Tracks-if false window queue history time later h t =
    Tracks-append window queue history time later h t

-- Whether a call returned.
abbrev pub passed : Outcome (Unit {0}) → Bool
passed (returned _) = true
passed (raised _) = false

module _ (bucket : TextPair) (rule : RateLimitRule) where
  abbrev pub Follows : InMemoryRateLimiter → List ℕ → ℕ → Type 0
  Follows s = Tracks rule.window_seconds (bucket_events s bucket)

  abbrev kept : InMemoryRateLimiter → Attempt → List ℕ
  kept s a = prune (bucket_events s bucket) rule a.now

  -- The queue after a call, whichever way the call ends.
  bucket_events-add_or_raise :
      (s : InMemoryRateLimiter) (a : Attempt)
      → bucket_events (add_or_raise bucket rule a.now a.later s).1 bucket
        ≡ (if leb rule.limit (length (kept s a)) then kept s a else kept s a ++ a.later ∷ [])
  unfolding add_or_raise
  bucket_events-add_or_raise s a = ground (
    arith,
    bucket_events-store_events bucket (kept s a) s,
    bucket_events-store_events bucket (kept s a ++ a.later ∷ []) (store_events bucket (kept s a) s),
  )

  admit-kept :
      (s : InMemoryRateLimiter) (history : List ℕ) (t : ℕ) (a : Attempt)
      → t ≤ a.now
      → Follows s history t
      → admit rule.limit rule.window_seconds history a
        ≡ (if leb rule.limit (length (kept s a)) then history else a.later ∷ history)
  admit-kept s history t a h f =
      ground
        (arith, length-prune rule a.now 0 t (bucket_events s bucket) f.sorted, f.counts a.now h)

  passed-add_or_raise :
      (s : InMemoryRateLimiter) (history : List ℕ) (t : ℕ) (a : Attempt)
      → t ≤ a.now
      → Follows s history t
      → passed (add_or_raise bucket rule a.now a.later s).0
        ≡ admits rule.limit rule.window_seconds history a
  unfolding add_or_raise
  passed-add_or_raise s history t a h f =
      ground
        (arith, length-prune rule a.now 0 t (bucket_events s bucket) f.sorted, f.counts a.now h)

  add_or_raise-Follows :
      (s : InMemoryRateLimiter) (history : List ℕ) (t : ℕ) (a : Attempt)
      → t ≤ a.now
      → a.now ≤ a.later
      → Follows s history t
      → Follows
          (add_or_raise bucket rule a.now a.later s).1
          (admit rule.limit rule.window_seconds history a)
          a.later
  add_or_raise-Follows s history t a h k f =
      rw (bucket_events-add_or_raise s a, admit-kept s history t a h f)
        (Tracks-if (leb rule.limit (length (kept s a))) rule.window_seconds (kept s a) history a.now
          a.later k (Tracks-prune rule (bucket_events s bucket) history t a.now h f))

  -- The answers to a sequence of calls on the bucket.
  pub answers : InMemoryRateLimiter → List Attempt → List Bool
  answers s [] = []
  answers s (a ∷ attempts) =
      let (r, s') = add_or_raise bucket rule a.now a.later s in passed r ∷ answers s' attempts

  pub answers-eq-verdicts :
      (s : InMemoryRateLimiter) (history : List ℕ) (t : ℕ) (attempts : List Attempt)
      → IsTimed t attempts
      → Follows s history t
      → answers s attempts ≡ verdicts rule.limit rule.window_seconds history attempts
  unfolding answers verdicts
  answers-eq-verdicts s history t [] timed f = refl
  answers-eq-verdicts s history t (a ∷ attempts) timed f =
      ap₂ ◌∷◌ (passed-add_or_raise s history t a timed.0 f) (
        answers-eq-verdicts (add_or_raise bucket rule a.now a.later s).1
          (admit rule.limit rule.window_seconds history a) a.later attempts timed.2
          (add_or_raise-Follows s history t a timed.0 timed.1 f))

Tracks-nil : (window : ℕ) → Tracks window [] [] 0
Tracks-nil window = record { sorted = omega arith; counts = λ u h. refl }

-- An API key that has made no call yet is answered, call by call, as the sliding window over
-- the whole history of its admitted calls answers, for calls in the order of the clock.
pub answers-api_key :
    (s : InMemoryRateLimiter) (key_prefix : String) (attempts : List Attempt)
    → bucket_events s (api_key_bucket key_prefix) ≡ []
    → IsTimed 0 attempts
    → answers (api_key_bucket key_prefix) s.api_key_rule s attempts
      ≡ verdicts s.api_key_rule.limit s.api_key_rule.window_seconds [] attempts
answers-api_key s key_prefix attempts fresh timed =
    answers-eq-verdicts (api_key_bucket key_prefix) s.api_key_rule s [] 0 attempts timed
      (rw fresh (Tracks-nil s.api_key_rule.window_seconds))
