-- ===== src/Executor.antt =====
-- `ImapExecutor` of src/postara/imap_executor.py: jobs for mail servers on a pool of threads, and a
-- semaphore for each account. A job is the number of its account.
pub mod Bounds
pub mod Progress
use postara.Prelude.{ℕ, suc, none, some, List, [], length, ◌+◌, ◌<◌, ◌≡◌, ◌∷◌, ◌++◌, nat_eq}
use postara.Dict
use postara.Dict.{Dict}

-- Jobs that no thread has taken, in their order; jobs whose thread waits for the semaphore; jobs that
-- hold it. A semaphore is the number of its free permits.
pub record ImapExecutor : Type 0 where
  pub max_workers : ℕ
  pub per_account_limit : ℕ
  pub account_locks : Dict ℕ ℕ
  pub queue : List ℕ
  pub waiting : List ℕ
  pub running : List ℕ

unfoldable pub new_executor : ℕ → ℕ → ImapExecutor
new_executor max_workers per_account_limit = record {
  max_workers = max_workers;
  per_account_limit = per_account_limit;
  account_locks = [];
  queue = [];
  waiting = [];
  running = [];
}

-- The locks after `_lock_for`.
unfoldable pub lock_for : ImapExecutor → ℕ → Dict ℕ ℕ
lock_for e account_id = elim (Dict.get e.account_locks account_id) [
  | none ↦ Dict.put e.account_locks account_id e.per_account_limit
  | some free ↦ e.account_locks
]

-- `run` as far as it does not wait.
unfoldable pub submit : ImapExecutor → ℕ → ImapExecutor
submit e account_id = record e {
  account_locks = lock_for e account_id;
  queue = e.queue ++ account_id ∷ [];
}

-- The second list is the first without one `x`.
pub data Picked (x : ℕ) : List ℕ → List ℕ → Type 0 where
  first : {xs : List ℕ} → Picked x (x ∷ xs) xs
  further : {y : ℕ} {xs ys : List ℕ} → Picked x xs ys → Picked x (y ∷ xs) (y ∷ ys)

-- What a thread of the pool does next: take the first job, enter `with lock`, or end `func` and
-- leave it.
pub data Step (e : ImapExecutor) : ImapExecutor → Type 0 where
  begin :
      {a : ℕ} {rest : List ℕ}
      → e.queue ≡ a ∷ rest
      → length e.waiting + length e.running < e.max_workers
      → Step e (record e { queue = rest; waiting = a ∷ e.waiting })
  enter :
      {a n : ℕ} {rest : List ℕ}
      → Picked a e.waiting rest
      → Dict.get e.account_locks a ≡ some (suc n)
      → Step e (record e {
        account_locks = Dict.put e.account_locks a n;
        waiting = rest;
        running = a ∷ e.running;
      })
  leave :
      {a n : ℕ} {rest : List ℕ}
      → Picked a e.running rest
      → Dict.get e.account_locks a ≡ some n
      → Step e (record e { account_locks = Dict.put e.account_locks a (suc n); running = rest })

-- `run` is called by the one thread that serves requests. A call that times out cancels a job that no
-- thread has taken; another job goes on.
pub data Move (e : ImapExecutor) : ImapExecutor → Type 0 where
  call : (account_id : ℕ) → Move e (submit e account_id)
  cancel : {a : ℕ} {rest : List ℕ} → Picked a e.queue rest → Move e (record e { queue = rest })
  work : {f : ImapExecutor} → Step e f → Move e f

pub data Reach (max_workers per_account_limit : ℕ) : ImapExecutor → Type 0 where
  start : Reach max_workers per_account_limit (new_executor max_workers per_account_limit)
  moved :
      {e f : ImapExecutor}
      → Reach max_workers per_account_limit e
      → Move e f
      → Reach max_workers per_account_limit f

-- That many steps of the threads, with no call and no cancelling between them.
pub data Steps (e : ImapExecutor) : ℕ → ImapExecutor → Type 0 where
  none_left : Steps e 0 e
  one_more : {k : ℕ} {f g : ImapExecutor} → Steps e k f → Step f g → Steps e (suc k) g
