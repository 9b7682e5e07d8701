-- ===== src/Executor/Progress.antt =====
-- The jobs of the executor of src/postara/imap_executor.py get done.
use postara.Prelude.{
  ℕ, zero, suc, refl, sym, ap, subst, inl, inr, List, [], arith, nat_eq, Option-cases, length, ◌+◌,
  ◌*◌, ◌≤◌, ◌<◌, ◌≡◌, ◌⊎◌, ◌∷◌,
}
use postara.Dict
use postara.Executor.{
  ImapExecutor, Picked, first, Step, begin, enter, leave, Reach, Steps, none_left, one_more,
}
use postara.Executor.Bounds.{count, IsValid, length-Picked, Reach-IsValid, Steps-IsValid}

-- A job takes three steps of a thread.
abbrev pub steps_left : ImapExecutor → ℕ
steps_left e = 3 * length e.queue + 2 * length e.waiting + length e.running

abbrev pub IsIdle : ImapExecutor → Type 0
IsIdle e = (e.queue ≡ []) × (e.waiting ≡ []) × (e.running ≡ [])

steps_left-Step : {e f : ImapExecutor} → Step e f → steps_left e ≡ suc (steps_left f)
steps_left-Step (begin q room) = omega (arith, ap length q)
steps_left-Step (enter p held) = omega (arith, length-Picked p)
steps_left-Step (leave p held) = omega (arith, length-Picked p)

steps_left-Steps : {e f : ImapExecutor} {k : ℕ} → Steps e k f → k + steps_left f ≡ steps_left e
steps_left-Steps none_left = omega arith
steps_left-Steps (one_more t s) = omega (arith, steps_left-Steps t, steps_left-Step s)

module _ {w l : ℕ} (some_worker : 0 < w) (some_permit : 0 < l) where
  leave_next :
      (e : ImapExecutor) (a : ℕ) (rest : List ℕ)
      → e.running ≡ a ∷ rest
      → IsValid w l e
      → (f : ImapExecutor) × Step e f
  unfolding count
  leave_next e a rest r v = elim (Option-cases (Dict.get e.account_locks a)) [
    | inl none_held ↦ ground (arith, r, v.unlocked a none_held, nat_eq.beq_iff a a)
    | inr (n, held) ↦ (_, leave (subst (λ xs. Picked a xs rest) (sym r) first) held)
  ]

  enter_next :
      (e : ImapExecutor) (a : ℕ) (rest : List ℕ)
      → e.running ≡ []
      → e.waiting ≡ a ∷ rest
      → IsValid w l e
      → (f : ImapExecutor) × Step e f
  unfolding count
  enter_next e a rest r q v = elim (Option-cases (Dict.get e.account_locks a)) [
    | inl none_held ↦ ground (arith, q, v.unlocked a none_held, nat_eq.beq_iff a a)
    | inr (zero, held) ↦ ground (arith, r, v.permits a 0 held)
    | inr (suc n, held) ↦ (_, enter (subst (λ xs. Picked a xs rest) (sym q) first) held)
  ]

  progress :
      (e : ImapExecutor) (running waiting queue : List ℕ)
      → e.running ≡ running
      → e.waiting ≡ waiting
      → e.queue ≡ queue
      → IsValid w l e
      → IsIdle e ⊎ ((f : ImapExecutor) × Step e f)
  progress e (a ∷ rest) waiting queue r t q v = inr (leave_next e a rest r v)
  progress e [] (a ∷ rest) queue r t q v = inr (enter_next e a rest r t v)
  progress e [] [] (a ∷ rest) r t q v =
      inr (_, begin q (omega (arith, ap length r, ap length t, v.workers)))
  progress e [] [] [] r t q v = inl (q, t, r)

  -- In an executor with a worker and a permit, however calls, cancelled jobs and the threads
  -- have led to its state: no more jobs have a thread than there are workers, and no more jobs
  -- of an account run than it has permits; and from there the threads take at most three steps for
  -- each job, and until no job is left one of them can take the next.
  pub run_drains :
      {e f : ImapExecutor} {k : ℕ}
      → Reach w l e
      → Steps e k f
      → (length f.waiting + length f.running ≤ w)
        × ((account_id : ℕ) → count account_id f.running ≤ l)
        × (k ≤ 3 * (length e.queue + length e.waiting + length e.running))
        × (IsIdle f ⊎ ((g : ImapExecutor) × Step f g))
  run_drains {e} {f} r t =
      let v = Steps-IsValid t (Reach-IsValid r) in
      (
        v.fits,
        λ a. elim (Option-cases (Dict.get f.account_locks a)) [
          | inl missing ↦ omega (arith, v.unlocked a missing)
          | inr (n, held) ↦ omega (arith, v.permits a n held)
        ],
        omega (arith, steps_left-Steps t),
        progress f f.running f.waiting f.queue refl refl refl v,
      )
