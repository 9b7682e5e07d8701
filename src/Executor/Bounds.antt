-- ===== src/Executor/Bounds.antt =====
-- No job without a permit: the limits of the executor of src/postara/imap_executor.py.
use postara.Prelude.{
  ℕ, suc, refl, none, some, List, [], arith, nat_eq, length, ◌+◌, ◌≤◌, ◌<◌, ◌≡◌, ◌∷◌, ◌++◌,
  if◌then◌else◌, ◌==◌,
}
use postara.Dict
use postara.Executor.{
  ImapExecutor, new_executor, lock_for, submit, Picked, first, further, Step, begin, enter, leave,
  Move, call, cancel, work, Reach, start, moved, Steps, none_left, one_more,
}

-- How many jobs are of the account.
unfoldable pub count : ℕ → List ℕ → ℕ
count a [] = 0
count a (b ∷ xs) = (if b == a then 1 else 0) + count a xs

count-append :
    (a b : ℕ) (xs : List ℕ) → count a (xs ++ b ∷ []) ≡ count a xs + (if b == a then 1 else 0)
unfolding count
count-append a b [] = ground arith
count-append a b (x ∷ xs) = ground (arith, count-append a b xs)

count-Picked :
    {a : ℕ} {xs ys : List ℕ} (b : ℕ)
    → Picked a xs ys
    → count b xs ≡ (if a == b then 1 else 0) + count b ys
unfolding count
count-Picked b first = refl
count-Picked b (further p) = ground (arith, count-Picked b p)

pub length-Picked : {a : ℕ} {xs ys : List ℕ} → Picked a xs ys → length xs ≡ suc (length ys)
length-Picked first = refl
length-Picked (further p) = omega (arith, length-Picked p)

-- Each permit of an account is free or held by a job that runs, and only accounts with a semaphore
-- have jobs.
pub record IsValid (w l : ℕ) (e : ImapExecutor) : Type 0 where
  pub workers : e.max_workers ≡ w
  pub limit : e.per_account_limit ≡ l
  pub fits : length e.waiting + length e.running ≤ w
  pub permits : (a n : ℕ) → Dict.get e.account_locks a ≡ some n → n + count a e.running ≡ l
  pub unlocked :
      (a : ℕ)
      → Dict.get e.account_locks a ≡ none
      → count a e.queue + count a e.waiting + count a e.running ≡ 0

get-lock_for :
    (e : ImapExecutor) (a b : ℕ)
    → Dict.get (lock_for e a) b ≡ (elim (Dict.get e.account_locks b) [
      | none ↦ if a == b then some e.per_account_limit else none
      | some n ↦ some n
    ])
unfolding lock_for
get-lock_for e a b =
    ground (arith, Dict.get-put e.account_locks a b e.per_account_limit, nat_eq.beq_iff a b)

module _ {w l : ℕ} where
  new_executor-IsValid : IsValid w l (new_executor w l)
  unfolding new_executor Dict.get count
  new_executor-IsValid = record {
    workers = refl;
    limit = refl;
    fits = omega arith;
    permits = λ a n h. ground (arith, h);
    unlocked = λ a h. refl;
  }

  submit-IsValid : (e : ImapExecutor) (a : ℕ) → IsValid w l e → IsValid w l (submit e a)
  unfolding submit
  submit-IsValid e a v = record {
    workers = v.workers;
    limit = v.limit;
    fits = v.fits;
    permits = λ b n h. ground (arith, h, get-lock_for e a b, v.permits b n, v.unlocked b, v.limit);
    unlocked = λ b h. ground (arith, h, get-lock_for e a b, v.unlocked b, count-append b a e.queue);
  }

  cancel-IsValid :
      (e : ImapExecutor) (a : ℕ) (rest : List ℕ)
      → Picked a e.queue rest
      → IsValid w l e
      → IsValid w l (record e { queue = rest })
  cancel-IsValid e a rest p v = record {
    workers = v.workers;
    limit = v.limit;
    fits = v.fits;
    permits = v.permits;
    unlocked = λ b h. ground (arith, h, v.unlocked b, count-Picked b p);
  }

  begin-IsValid :
      (e : ImapExecutor) (a : ℕ) (rest : List ℕ)
      → e.queue ≡ a ∷ rest
      → length e.waiting + length e.running < e.max_workers
      → IsValid w l e
      → IsValid w l (record e { queue = rest; waiting = a ∷ e.waiting })
  unfolding count
  begin-IsValid e a rest q room v = record {
    workers = v.workers;
    limit = v.limit;
    fits = omega (arith, room, v.workers);
    permits = v.permits;
    unlocked = λ b h. ground (arith, h, q, v.unlocked b);
  }

  enter-IsValid :
      (e : ImapExecutor) (a n : ℕ) (rest : List ℕ)
      → Picked a e.waiting rest
      → Dict.get e.account_locks a ≡ some (suc n)
      → IsValid w l e
      → IsValid w l (record e {
        account_locks = Dict.put e.account_locks a n;
        waiting = rest;
        running = a ∷ e.running;
      })
  unfolding count
  enter-IsValid e a n rest p held v = record {
    workers = v.workers;
    limit = v.limit;
    fits = omega (arith, length-Picked p, v.fits);
    permits = λ b m h. ground (
      arith,
      h,
      held,
      Dict.get-put e.account_locks a b n,
      v.permits a (suc n),
      v.permits b m,
      nat_eq.beq_iff a b,
    );
    unlocked = λ b h. ground (
      arith,
      h,
      held,
      Dict.get-put e.account_locks a b n,
      v.unlocked b,
      count-Picked b p,
      nat_eq.beq_iff a b,
    );
  }

  leave-IsValid :
      (e : ImapExecutor) (a n : ℕ) (rest : List ℕ)
      → Picked a e.running rest
      → Dict.get e.account_locks a ≡ some n
      → IsValid w l e
      → IsValid w l
          (record e { account_locks = Dict.put e.account_locks a (suc n); running = rest })
  leave-IsValid e a n rest p held v = record {
    workers = v.workers;
    limit = v.limit;
    fits = omega (arith, length-Picked p, v.fits);
    permits = λ b m h. ground (
      arith,
      h,
      held,
      Dict.get-put e.account_locks a b (suc n),
      v.permits a n,
      v.permits b m,
      nat_eq.beq_iff a b,
      count-Picked b p,
    );
    unlocked = λ b h. ground (
      arith,
      h,
      held,
      Dict.get-put e.account_locks a b (suc n),
      v.unlocked b,
      count-Picked b p,
      nat_eq.beq_iff a b,
    );
  }

  Step-IsValid : {e f : ImapExecutor} → Step e f → IsValid w l e → IsValid w l f
  Step-IsValid {e} (begin q room) v = begin-IsValid e _ _ q room v
  Step-IsValid {e} (enter p held) v = enter-IsValid e _ _ _ p held v
  Step-IsValid {e} (leave p held) v = leave-IsValid e _ _ _ p held v

  Move-IsValid : {e f : ImapExecutor} → Move e f → IsValid w l e → IsValid w l f
  Move-IsValid {e} (call a) v = submit-IsValid e a v
  Move-IsValid {e} (cancel p) v = cancel-IsValid e _ _ p v
  Move-IsValid (work s) v = Step-IsValid s v

  pub Reach-IsValid : {e : ImapExecutor} → Reach w l e → IsValid w l e
  Reach-IsValid start = new_executor-IsValid
  Reach-IsValid (moved r m) = Move-IsValid m (Reach-IsValid r)

  pub Steps-IsValid : {e f : ImapExecutor} {k : ℕ} → Steps e k f → IsValid w l e → IsValid w l f
  Steps-IsValid none_left v = v
  Steps-IsValid (one_more t s) v = Step-IsValid s (Steps-IsValid t v)
