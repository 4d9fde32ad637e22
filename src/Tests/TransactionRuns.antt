-- ===== src/Tests/TransactionRuns.antt =====
-- Runs of transactions.
use hybrid_databases.Base.{ℕ, ◌≡◌, ◌≢◌, refl, arith, false, [], ◌∷◌}
use hybrid_databases.Utils.Lock.{l_check, l_lock, lock_fails}
use hybrid_databases.Transactions.Memory.{raw}
use hybrid_databases.Transactions.State.{
  State, ct_sync, ct_async, tr_begin, memory_write, internal_write, util_lock,
}
use hybrid_databases.Transactions.Commit.{validate, tr_abort, tr_commit_main}
use hybrid_databases.Transactions.Runs.{Runs, done, wrote, Restored}
use hybrid_databases.Transactions.Rollback.{tr_abort-nested}
use hybrid_databases.Transactions.Outcomes.{IsIdle, Ended, tr_abort-main}

-- A handle at address 1000, with all locks free at version 1.
abbrev idle : State
idle = record {
  me = 1000;
  start_time = 0;
  read_set = [];
  transactions = [];
  log = [];
  commit_type = ct_async;
  acquired_locks = [];
  time = 5;
  locks = λ l. 1;
  memory = λ a. 0;
  freed = [];
  queue = [];
}

idle-IsIdle : IsIdle idle
idle-IsIdle = record {
  start_time = refl;
  read_set = refl;
  transactions = refl;
  log = refl;
  commit_type = refl;
  acquired_locks = refl;
}

free : (l : ℕ) → idle.locks l ≢ idle.me
free l e = absurd (omega arith)

abbrev written : State → State
written S = internal_write 40 (1 ∷ 2 ∷ []) (util_lock 7 S).1

-- Two bytes written under lock 7.
main_run : Runs (tr_begin idle) (written (tr_begin idle))
unfolding memory_write tr_begin util_lock l_lock lock_fails
main_run = wrote {S1 = tr_begin idle} {S2 = written (tr_begin idle)} 7 40 (1 ∷ 2 ∷ []) done refl

busy : idle.time ≢ 0
busy e = absurd (omega arith)

tr_abort-main_example :
    Ended (written (tr_begin idle)) (tr_abort (written (tr_begin idle))) idle.memory
tr_abort-main_example = tr_abort-main idle-IsIdle busy main_run free

-- A transaction in which a nested one writes.
abbrev outer : State
outer = record idle { start_time = 5 }

outer-busy : outer.start_time ≢ 0
outer-busy e = absurd (omega arith)

nested_run : Runs (tr_begin outer) (written (tr_begin outer))
unfolding memory_write tr_begin util_lock l_lock lock_fails
nested_run = wrote {S1 = tr_begin outer} {S2 = written (tr_begin outer)} 7 40 (1 ∷ 2 ∷ []) done refl

tr_abort-nested_example : Restored outer (tr_abort (written (tr_begin outer)))
tr_abort-nested_example = tr_abort-nested outer-busy nested_run

-- A transaction that holds lock 7 at a version that it may not read fails its validation.
abbrev stale : State
stale = record idle {
  start_time = 3;
  read_set = 8 ∷ [];
  log = raw 40 (0 ∷ []) ∷ [];
  locks = λ l. 9;
}

stale_commit : (tr_commit_main ct_sync stale).success ≡ false
unfolding tr_commit_main validate l_check
stale_commit = refl
