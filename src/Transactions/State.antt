-- ===== src/Transactions/State.antt =====
-- The handle and the database, and what a transaction does before it ends.
use hybrid_databases.Base.{
  ℕ, ◌+◌, ◌-◌, Bool, true, false, Option, none, some, List, ◌∷◌, length, ◌==◌, if◌then◌else◌, drop,
}
use hybrid_databases.Utils.Lock.{l_check, l_lock}
use hybrid_databases.Transactions.Memory.{
  Bytes, write_bytes, read_bytes, LogItem, raw, node_modify, memory_alloc, memory_delete, Freed,
  undo_to,
}

-- `enum CommitType`
pub data CommitType : Type 0 where
  ct_sync : CommitType
  ct_async : CommitType
  ct_force_async : CommitType

-- `struct Transaction`
pub record Transaction : Type 0 where
  pub read_set : ℕ
  pub acquired_locks : ℕ
  pub pos : ℕ
  pub commit_type : CommitType

-- The semaphores of a handle that a commit names.
pub data Semaphore : Type 0 where
  write_finished : Semaphore
  pending_transactions : Semaphore

-- `enum DbService`, the types that a commit sends
pub data Service : Type 0 where
  commit : Service
  sync_commit : Service
  sync_me : Service

-- `struct OutputList`: `log` is the log whose encoding stands in its writer.
pub record Job : Type 0 where
  pub type : Service
  pub lock : Semaphore
  pub end_time : ℕ
  pub log : List LogItem

-- `Handle` and the parts of `Database` that it shares. Stacks have their top first; locks are
-- named by numbers, and `me` is the address of the handle.
pub record State : Type 0 where
  pub me : ℕ
  pub start_time : ℕ
  pub read_set : List ℕ
  pub transactions : List Transaction
  pub log : List LogItem
  pub commit_type : CommitType
  pub acquired_locks : List ℕ
  pub time : ℕ
  pub locks : ℕ → ℕ
  pub memory : Bytes
  pub freed : List Freed
  pub queue : List Job

-- `util_lock`
unfoldable pub util_lock : ℕ → State → Bool × State
util_lock lock S =
    let (value, result) = l_lock (S.locks lock) S.me S.start_time in
    let S1 = record S { locks = λ l. if l == lock then value else S.locks l } in
    if result == 0
    then (false, S)
    else if result == 1
    then (true, record S1 { acquired_locks = lock ∷ S.acquired_locks })
    else (true, S1)

-- `trMemoryInternalWrite_`, for the at most 16 bytes that an item of the log holds
unfoldable pub internal_write : ℕ → List ℕ → State → State
internal_write p new S = record S {
  memory = write_bytes p new S.memory;
  log = raw p (read_bytes p (length new) S.memory) ∷ S.log;
}

-- `trInternalWrite_` of a primitive attribute
unfoldable pub internal_node_write : ℕ → ℕ → List ℕ → State → State
internal_node_write p offset new S = record S {
  memory = write_bytes (p + offset) new S.memory;
  log = node_modify p offset (read_bytes (p + offset) (length new) S.memory) new ∷ S.log;
}

-- `trMemoryWrite_` and `trWrite_`; `none` is `trFail`.
unfoldable pub memory_write : ℕ → ℕ → List ℕ → State → Option State
memory_write lock p new S =
    let (held, S1) = util_lock lock S in if held then some (internal_write p new S1) else none

unfoldable pub node_write : ℕ → ℕ → ℕ → List ℕ → State → Option State
node_write lock p offset new S =
    let (held, S1) = util_lock lock S in
    if held then some (internal_node_write p offset new S1) else none

-- `trMemoryRead_` and `trRead_`: the lock is checked behind the read.
unfoldable pub memory_read : ℕ → ℕ → ℕ → State → Option (List ℕ × State)
memory_read lock p size S =
    if l_check (S.locks lock) S.me S.start_time
    then some (read_bytes p size S.memory, record S { read_set = lock ∷ S.read_set })
    else none

-- `tr_memory_alloc`, for what the allocator returns, and `tr_memory_free`
unfoldable pub tr_memory_alloc : ℕ → State → State
tr_memory_alloc p S = record S { log = memory_alloc p ∷ S.log }

unfoldable pub tr_memory_free : ℕ → State → State
tr_memory_free p S = record S { log = memory_delete p ∷ S.log }

-- `tr_begin`
unfoldable pub tr_begin : State → State
tr_begin S =
    if S.start_time == 0
    then record S { start_time = S.time }
    else (let nt : Transaction = record {
      read_set = length S.read_set;
      acquired_locks = length S.acquired_locks;
      pos = length S.log;
      commit_type = S.commit_type;
    } in
        record S { transactions = nt ∷ S.transactions })

-- `_tr_handle_rollback`
unfoldable pub handle_rollback : Transaction → State → State
handle_rollback nested S =
    let (log, (memory, freed)) = undo_to nested.pos S.time S.log (S.memory, S.freed) in
    record S {
      read_set = drop (length S.read_set - nested.read_set) S.read_set;
      log = log;
      memory = memory;
      freed = freed;
      commit_type = nested.commit_type;
    }
