-- ===== src/RateLimit/Window.antt =====
-- What the limiter of src/postara/rate_limit.py lets through in any window.
use postara.Prelude.{
  ℕ, String, refl, sym, subst, inl, inr, Bool, true, false, List, [], Bool-cases, ◌≡◌, ◌∷◌,
}
use postara.RateLimit.{InMemoryRateLimiter, api_key_bucket, bucket_events}
use postara.RateLimit.Sliding.{
  Attempt, admits, IsTimed, IsWithin, verdicts, admitted, admitted-IsWithin,
}
use postara.RateLimit.Refinement.{answers, answers-api_key}

-- The times of the attempts that were answered with true, newest first, before those of `history`.
unfoldable pub let_through : List Attempt → List Bool → List ℕ → List ℕ
let_through (a ∷ attempts) (true ∷ passes) history = let_through attempts passes (a.later ∷ history)
let_through (a ∷ attempts) (false ∷ passes) history = let_through attempts passes history
let_through _ _ history = history

let_through-verdicts :
    (limit window : ℕ) (history : List ℕ) (attempts : List Attempt)
    → let_through attempts (verdicts limit window history attempts) history
      ≡ admitted limit window history attempts
unfolding let_through verdicts admitted
let_through-verdicts limit window history [] = refl
let_through-verdicts limit window history (a ∷ attempts) =
    elim (Bool-cases (admits limit window history a)) [
      | inl e ↦ rw e (let_through-verdicts limit window (a.later ∷ history) attempts)
      | inr e ↦ rw e (let_through-verdicts limit window history attempts)
    ]

-- Of the calls with a new API key, in the order of the clock, the limiter lets through so few
-- that, whenever it lets one through, at most `limit` of them, that one included, lie in the
-- window that ends there.
pub answers-IsWithin :
    (s : InMemoryRateLimiter) (key_prefix : String) (attempts : List Attempt)
    → bucket_events s (api_key_bucket key_prefix) ≡ []
    → IsTimed 0 attempts
    → IsWithin s.api_key_rule.limit s.api_key_rule.window_seconds
        (let_through attempts (answers (api_key_bucket key_prefix) s.api_key_rule s attempts) [])
answers-IsWithin s key_prefix attempts fresh timed =
    let limit = s.api_key_rule.limit in
    let window = s.api_key_rule.window_seconds in
    subst (IsWithin limit window)
      (sym (
        rw (answers-api_key s key_prefix attempts fresh timed)
          (let_through-verdicts limit window [] attempts)))
      (admitted-IsWithin limit window 0 [] attempts timed tt)
