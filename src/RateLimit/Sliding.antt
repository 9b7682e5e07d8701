-- ===== src/RateLimit/Sliding.antt =====
-- The specification of src/postara/rate_limit.py: a call is admitted when fewer than `limit` of
-- all calls that were ever admitted still lie in the window.
use postara.Prelude.{ℕ, suc, Bool, List, [], arith, ltb, ◌+◌, ◌≤◌, ◌∷◌, if◌then◌else◌}

-- How many of the times `xs` lie in the window that ends at `now`.
unfoldable pub alive : ℕ → ℕ → List ℕ → ℕ
alive window now [] = 0
alive window now (x ∷ xs) =
    let rest = alive window now xs in if ltb now (x + window) then suc rest else rest

-- The history is newest first.
pub record Attempt : Type 0 where
  pub now : ℕ
  pub later : ℕ

abbrev pub admits : ℕ → ℕ → List ℕ → Attempt → Bool
admits limit window history a = ltb (alive window a.now history) limit

abbrev pub admit : ℕ → ℕ → List ℕ → Attempt → List ℕ
admit limit window history a = if admits limit window history a then a.later ∷ history else history

-- At each admitted call the window that ends there holds `limit` admitted calls at most.
abbrev pub IsWithin : ℕ → ℕ → List ℕ → Type 0
IsWithin limit window [] = Unit {0}
IsWithin limit window (x ∷ history) =
    (alive window x (x ∷ history) ≤ limit) × IsWithin limit window history

pub alive-antitone : (window u v : ℕ) (xs : List ℕ) → u ≤ v → alive window v xs ≤ alive window u xs
unfolding alive
alive-antitone window u v [] h = omega arith
alive-antitone window u v (x ∷ xs) h = ground (arith, alive-antitone window u v xs h)

pub alive-cons-le :
    (window now x : ℕ) (xs : List ℕ) → alive window now (x ∷ xs) ≤ alive window now xs + 1
unfolding alive
alive-cons-le window now x xs = ground arith

pub admit-IsWithin :
    (limit window : ℕ) (history : List ℕ) (a : Attempt)
    → a.now ≤ a.later
    → IsWithin limit window history
    → IsWithin limit window (admit limit window history a)
admit-IsWithin limit window history a h w = ground (
  arith,
  alive-cons-le window a.later a.later history,
  alive-antitone window a.now a.later history,
)

-- Attempts in the order of the clock.
abbrev pub IsTimed : ℕ → List Attempt → Type 0
IsTimed t [] = Unit {0}
IsTimed t (a ∷ attempts) = (t ≤ a.now) × (a.now ≤ a.later) × IsTimed a.later attempts

unfoldable pub verdicts : ℕ → ℕ → List ℕ → List Attempt → List Bool
verdicts limit window history [] = []
verdicts limit window history (a ∷ attempts) =
    admits limit window history a ∷ verdicts limit window (admit limit window history a) attempts

unfoldable pub admitted : ℕ → ℕ → List ℕ → List Attempt → List ℕ
admitted limit window history [] = history
admitted limit window history (a ∷ attempts) =
    admitted limit window (admit limit window history a) attempts

pub admitted-IsWithin :
    (limit window t : ℕ) (history : List ℕ) (attempts : List Attempt)
    → IsTimed t attempts
    → IsWithin limit window history
    → IsWithin limit window (admitted limit window history attempts)
unfolding admitted
admitted-IsWithin limit window t history [] timed w = w
admitted-IsWithin limit window t history (a ∷ attempts) timed w =
    admitted-IsWithin limit window a.later (admit limit window history a) attempts timed.2
      (admit-IsWithin limit window history a timed.1 w)
