-- ===== src/Tests/Jobs.antt =====
-- A job of the executor of src/postara/imap_executor.py on an example.
use postara.Prelude.{ℕ, refl, [], arith, length, ◌+◌, ◌*◌, ◌≤◌, ◌⊎◌, ◌∷◌, nat_eq}
use postara.Executor.{
  ImapExecutor, new_executor, lock_for, submit, first, Step, begin, enter, call, Reach, start,
  moved, Steps, none_left, one_more,
}
use postara.Executor.Bounds.{count}
use postara.Executor.Progress.{IsIdle, run_drains}
use postara.Dict

-- One job for the account 7, and one behind it.
abbrev asked : ImapExecutor
asked = submit (submit (new_executor 1 1) 7) 7

-- The first of the two holds the permit.
abbrev in_work : ImapExecutor
in_work = record {
  max_workers = 1;
  per_account_limit = 1;
  account_locks = (7, 0) ∷ [];
  queue = 7 ∷ [];
  waiting = [];
  running = 7 ∷ [];
}

asked-Reach : Reach 1 1 asked
asked-Reach = moved (moved start (call 7)) (call 7)

asked-Steps : Steps asked 2 in_work
unfolding submit lock_for new_executor Dict.get Dict.put
asked-Steps = one_more (one_more none_left (begin refl (omega arith))) (enter first refl)

run_drains_example :
    (length in_work.waiting + length in_work.running ≤ 1)
    × ((account_id : ℕ) → count account_id in_work.running ≤ 1)
    × (2 ≤ 3 * (length asked.queue + length asked.waiting + length asked.running))
    × (IsIdle in_work ⊎ ((g : ImapExecutor) × Step in_work g))
run_drains_example = run_drains (omega arith) (omega arith) asked-Reach asked-Steps
