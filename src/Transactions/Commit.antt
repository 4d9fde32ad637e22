-- ===== src/Transactions/Commit.antt =====
-- The end of a transaction: aborts and commits.
use hybrid_databases.Base.{
  ℕ, ◌+◌, ◌%◌, ◌^◌, Bool, true, false, Option, none, some, List, [], ◌∷◌, ◌++◌, ◌==◌, if◌then◌else◌,
  ◌&&◌,
}
use hybrid_databases.Utils.Lock.{l_check, l_unlock}
use hybrid_databases.Transactions.Memory.{LogItem}
use hybrid_databases.Transactions.State.{
  CommitType, ct_sync, ct_async, ct_force_async, Transaction, Semaphore, write_finished,
  pending_transactions, commit, sync_commit, sync_me, Job, State, handle_rollback,
}

-- `atomic_add_and_fetch(&db->time, 2)`
unfoldable pub later : ℕ → ℕ
later time = (time + 2) % 2 ^ 64

-- `_tr_unlock`: the stack of locks is emptied from its top.
unfoldable pub unlock_all : ℕ → ℕ → List ℕ → (ℕ → ℕ) → (ℕ → ℕ)
unlock_all me ver [] locks = locks
unlock_all me ver (lock ∷ rest) locks =
    let value = (l_unlock (locks lock) me ver).0 in
    unlock_all me ver rest (λ l. if l == lock then value else locks l)

unfoldable pub tr_unlock : ℕ → State → State
tr_unlock ver S = record S {
  acquired_locks = [];
  locks = unlock_all S.me ver S.acquired_locks S.locks;
}

-- `handle_cleanup`
unfoldable pub handle_cleanup : State → State
handle_cleanup S = record S {
  start_time = 0;
  read_set = [];
  acquired_locks = [];
  transactions = [];
  log = [];
  commit_type = ct_async;
}

-- The transaction that `_tr_abort_main` clears with `memset`.
abbrev pub empty_transaction : Transaction
empty_transaction = record { read_set = 0; acquired_locks = 0; pos = 0; commit_type = ct_async }

-- `_tr_abort_main`
unfoldable pub tr_abort_main : State → State
tr_abort_main S =
    let S1 = handle_rollback empty_transaction S in
    let end_time = later S1.time in
    handle_cleanup (tr_unlock end_time (record S1 { time = end_time }))

-- `tr_abort`
unfoldable pub tr_abort : State → State
tr_abort S = elim S.transactions [
  | [] ↦ tr_abort_main S
  | nested ∷ rest ↦ (record (handle_rollback nested S) { transactions = rest })
]

-- `tr_validate`
unfoldable pub validate : ℕ → ℕ → List ℕ → (ℕ → ℕ) → Bool
validate me start_time [] locks = true
validate me start_time (lock ∷ rest) locks =
    validate me start_time rest locks && l_check (locks lock) me start_time

abbrev pub tr_validate : State → Bool
tr_validate S = validate S.me S.start_time S.read_set S.locks

-- The commit type that `_tr_commit_main` goes by.
unfoldable pub effective : CommitType → CommitType → CommitType
effective ct_async inherited = inherited
effective ct_sync inherited = ct_sync
effective ct_force_async inherited = ct_force_async

unfoldable pub is_sync : CommitType → Bool
is_sync ct_sync = true
is_sync ct_async = false
is_sync ct_force_async = false

abbrev pub job_lock : CommitType → Semaphore
job_lock t = if is_sync t then write_finished else pending_transactions

-- The job that a commit queues, for the log whose encoding its writer gets.
abbrev pub commit_job : CommitType → ℕ → List LogItem → Job
commit_job t end_time written = record {
  type = if is_sync t then sync_commit else commit;
  lock = job_lock t;
  end_time = end_time;
  log = written;
}

-- What a commit answers, and the semaphore on which it waits before it returns.
pub record Answer : Type 0 where
  pub success : Bool
  pub waits : Option Semaphore
  pub state : State

-- `_tr_commit_main`
unfoldable pub tr_commit_main : CommitType → State → Answer
tr_commit_main given S =
    let commit_type = effective given S.commit_type in
    let end_time = later S.time in
    let S1 = record S { time = end_time } in
    elim S.log [
      | [] ↦
          let S2 = handle_cleanup (tr_unlock end_time S1) in
          (if is_sync commit_type
            then record {
              success = true;
              waits = some write_finished;
              state = record S2 {
                queue =
                    S2.queue
                    ++ (record { type = sync_me; lock = write_finished; end_time = 0; log = [] }
                        ∷ []);
              };
            }
            else record { success = true; waits = none; state = S2 })
      | item ∷ log ↦
          let job = commit_job commit_type end_time in
          (if tr_validate S1
            then record {
              success = true;
              waits = some (job_lock commit_type);
              state =
                  handle_cleanup
                    (tr_unlock end_time (record S1 { queue = S.queue ++ (job (item ∷ log) ∷ []) }));
            }
            else record {
              success = false;
              waits = none;
              state = tr_abort_main (record S1 { queue = S.queue ++ (job [] ∷ []) });
            })
    ]

-- `tr_commit`
unfoldable pub tr_commit : CommitType → State → Answer
tr_commit given S = elim S.transactions [
  | [] ↦ tr_commit_main given S
  | nested ∷ rest ↦ record {
    success = true;
    waits = none;
    state = record S {
      transactions = rest;
      commit_type = elim given [
        | ct_sync ↦ ct_sync
        | ct_force_async ↦ ct_async
        | ct_async ↦ S.commit_type
      ];
    };
  }
]
