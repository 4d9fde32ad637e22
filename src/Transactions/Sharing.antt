-- ===== src/Transactions/Sharing.antt =====
-- Several handles on one database (database.include/transaction.c, inline.h and macros.h): the calls
-- of their transactions one after another, in any order.
pub mod Undoing
pub mod Frames
pub mod Moves
pub mod Writes
pub mod Ends
pub mod Working
pub mod Steps
pub mod Serial
use hybrid_databases.Base.{
  ℕ, ◌+◌, ◌%◌, ◌^◌, ◌<◌, ◌≡◌, ◌≢◌, Bool, true, false, some, List, [], ◌∷◌, length, ◌==◌,
  if◌then◌else◌,
}
use hybrid_databases.Utils.Lock.{l_init}
use hybrid_databases.Transactions.Memory.{Bytes}
use hybrid_databases.Transactions.State.{
  CommitType, State, memory_write, node_write, memory_read, tr_memory_alloc, tr_memory_free,
  tr_begin,
}
use hybrid_databases.Transactions.Commit.{
  tr_abort, tr_abort_main, tr_commit, tr_commit_main, Answer,
}
use hybrid_databases.Transactions.Outcomes.{IsIdle}

-- The database is the shared part of `shared`: the clock, the locks, the memory, what is freed and
-- the queue. Of a handle, the rest counts. `committed` is the memory as the commits so far leave it,
-- and `snapshot` what it was when a handle began its transaction.
pub record System : Type 0 where
  pub shared : State
  pub handle : ℕ → State
  pub committed : Bytes
  pub snapshot : ℕ → Bytes

-- What the calls of a handle work on
abbrev pub view : ℕ → System → State
view i Z = record (Z.handle i) {
  time = Z.shared.time;
  locks = Z.shared.locks;
  memory = Z.shared.memory;
  freed = Z.shared.freed;
  queue = Z.shared.queue;
}

abbrev pub update {ℓ} : {A : Type ℓ} → ℕ → A → (ℕ → A) → ℕ → A
update i x f j = if j == i then x else f j

abbrev pub after : ℕ → State → System → System
after i S Z = record Z { shared = S; handle = update i S Z.handle }

-- The first call of `tr_begin`
abbrev pub has_begun : ℕ → System → System
has_begun i Z = record (after i (tr_begin (view i Z)) Z) {
  snapshot = update i Z.committed Z.snapshot;
}

-- One lock stands for the bytes. `guard` tells which lock stands for a byte.
abbrev pub Guarded : (ℕ → ℕ) → ℕ → ℕ → ℕ → Type 0
Guarded guard p n lock = (k : ℕ) → k < n → guard (p + k) ≡ lock

module _ (guard : ℕ → ℕ) where
  -- What a handle does inside of its transaction; nested transactions begin and end.
  pub data Works (S : State) : State → Type 0 where
    wrote :
        {S2 : State} (lock p : ℕ) (new : List ℕ)
        → Guarded guard p (length new) lock
        → memory_write lock p new S ≡ some S2
        → Works S S2
    node_wrote :
        {S2 : State} (lock p offset : ℕ) (new : List ℕ)
        → Guarded guard (p + offset) (length new) lock
        → node_write lock p offset new S ≡ some S2
        → Works S S2
    has_read :
        {S2 : State} (lock p size : ℕ) (bytes : List ℕ)
        → memory_read lock p size S ≡ some (bytes, S2)
        → Works S S2
    allocated : (p : ℕ) → Works S (tr_memory_alloc p S)
    released : (p : ℕ) → Works S (tr_memory_free p S)
    nested : Works S (tr_begin S)
    nested_aborted : S.transactions ≢ [] → Works S (tr_abort S)
    nested_committed : (t : CommitType) → S.transactions ≢ [] → Works S (tr_commit t S).state

-- `name` is the address of a handle.
module _ (guard name : ℕ → ℕ) where
  -- What a commit makes of the committed memory: what the handle had locked is as it left it.
  abbrev pub settled : ℕ → Bool → System → Bytes
  settled i false Z a = Z.committed a
  settled i true Z a =
      if Z.shared.locks (guard a) == name i then Z.shared.memory a else Z.committed a

  abbrev pub answered : ℕ → Answer → System → System
  answered i A Z = record (after i A.state Z) { committed = settled i A.success Z }

  -- The clock is taken not to wrap around.
  pub data Step (Z : System) : System → Type 0 where
    begins : (i : ℕ) → (Z.handle i).start_time ≡ 0 → Step Z (has_begun i Z)
    works :
        (i : ℕ) {S : State}
        → (Z.handle i).start_time ≢ 0
        → Works guard (view i Z) S
        → Step Z (after i S Z)
    aborts :
        (i : ℕ)
        → (Z.handle i).start_time ≢ 0
        → Z.shared.time + 4 < 2 ^ 64
        → Step Z (after i (tr_abort_main (view i Z)) Z)
    commits :
        (i : ℕ) (t : CommitType)
        → (Z.handle i).start_time ≢ 0
        → Z.shared.time + 4 < 2 ^ 64
        → Step Z (answered i (tr_commit_main t (view i Z)) Z)

-- A database whose locks are as `l_init` leaves them, and handles outside of every transaction
pub record IsFresh (name : ℕ → ℕ) (Z : System) : Type 0 where
  pub clock : Z.shared.time % 2 ≡ 1
  pub locks : (l : ℕ) → Z.shared.locks l ≡ l_init
  pub memory : (a : ℕ) → Z.shared.memory a ≡ Z.committed a
  pub me : (i : ℕ) → (Z.handle i).me ≡ name i
  pub idle : (i : ℕ) → IsIdle (Z.handle i)

pub data Reach (guard name : ℕ → ℕ) : System → Type 0 where
  start : {Z : System} → IsFresh name Z → Reach guard name Z
  later : {Y Z : System} → Reach guard name Y → Step guard name Y Z → Reach guard name Z
