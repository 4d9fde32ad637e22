-- ===== src/Transactions/Sharing/Working.antt =====
-- What a handle does inside of a transaction (database.include/macros.h, inline.h) keeps what holds
-- of the database.
use hybrid_databases.Base.{
  ℕ, ◌+◌, ◌%◌, ◌≡◌, ◌≢◌, refl, sym, ap, ◌∙◌, subst, arith, true, some, List, [], ◌∷◌, length, ◌==◌,
  if◌then◌else◌,
}
use hybrid_databases.Transactions.Memory.{
  Bytes, LogItem, raw, node_modify, memory_alloc, memory_delete, read_bytes, write_bytes,
}
use hybrid_databases.Transactions.State.{
  CommitType, Transaction, State, util_lock, internal_write, internal_node_write, memory_write,
  node_write, tr_memory_alloc, tr_memory_free, handle_rollback,
}
use hybrid_databases.Transactions.Commit.{tr_abort, tr_commit}
use hybrid_databases.Transactions.Runs.{memory_write_inv, node_write_inv, memory_read_inv}
use hybrid_databases.Transactions.Rollback.{inside, tr_begin-inside}
use hybrid_databases.Transactions.Locking.{Owned, util_lock-Owned}
use hybrid_databases.Transactions.Sharing.{
  Guarded, Works, wrote, node_wrote, has_read, allocated, released, nested, nested_aborted,
  nested_committed,
}
use hybrid_databases.Transactions.Sharing.Undoing.{undone, Outside, Untouched, length-read_bytes}
use hybrid_databases.Transactions.Sharing.Frames.{Passes, Part, Shared}
use hybrid_databases.Transactions.Sharing.Moves.{Kept, quiet-Kept, rollback-Kept}
use hybrid_databases.Transactions.Sharing.Writes.{Locked, util_lock-Locked, write-Kept}

-- A write that succeeds has its lock.
written_held :
    (lock q : ℕ) (new : List ℕ) (S : State) {S2 : State}
    → memory_write lock q new S ≡ some S2
    → (util_lock lock S).0 ≡ true
unfolding memory_write
written_held lock q new S h = ground arith

node_written_held :
    (lock q offset : ℕ) (new : List ℕ) (S : State) {S2 : State}
    → node_write lock q offset new S ≡ some S2
    → (util_lock lock S).0 ≡ true
unfolding node_write
node_written_held lock q offset new S h = ground arith

-- The branches of `tr_abort` and `tr_commit` inside of a nested transaction
tr_abort-nested_lem :
    (S : State) (inner : Transaction) (rest : List Transaction)
    → S.transactions ≡ inner ∷ rest
    → tr_abort S ≡ record (handle_rollback inner S) { transactions = rest }
unfolding tr_abort
tr_abort-nested_lem S inner rest e = rw e refl

tr_commit-nested_lem :
    (t : CommitType) (S : State) (inner : Transaction) (rest : List Transaction)
    → S.transactions ≡ inner ∷ rest
    → (tr_commit t S).state
      ≡ record S { transactions = rest; commit_type = (tr_commit t S).state.commit_type }
unfolding tr_commit
tr_commit-nested_lem t S inner rest e = rw e refl

module _ (guard : ℕ → ℕ) {who : ℕ} {S : State} {committed snapshot : Bytes} (even : who % 2 ≡ 0)
    (s : Shared guard S committed) (p : Part guard who S committed snapshot)
    (busy : S.start_time ≢ 0) where
  abbrev pub Keeps : State → Type 0
  Keeps S2 = Kept guard who S S2 committed committed snapshot

  -- A write to memory or to a node, by what it logs
  write-Keeps :
      (lock q : ℕ) (new : List ℕ) (item : LogItem) (S1 : State)
      → (L : Locked lock S S1) → Owned S1
      → Guarded guard q (length new) lock
      → ((m : Bytes)
          → undone (item ∷ S.log) m
            ≡ undone S.log (write_bytes q (read_bytes q (length new) S.memory) m))
      → ((a : ℕ) → Outside q (length new) a → Untouched S.log a → Untouched (item ∷ S.log) a)
      → Keeps (record S {
        locks = L.locks;
        acquired_locks = L.acquired_locks;
        memory = write_bytes q new S.memory;
        log = item ∷ S.log;
      })
  write-Keeps lock q new item S1 L o g u t =
      write-Kept guard even s p lock q new L.locks L.acquired_locks item busy
        (subst (λ w. Passes (S.locks lock) w S.start_time) p.me L.passed)
        (λ l. L.taken l ∙ ap (λ (w : ℕ). if l == lock then w else S.locks l) p.me)
        (subst Owned L.state o) g u t

  wrote-Keeps :
      (S2 : State) (lock q : ℕ) (new : List ℕ)
      → Guarded guard q (length new) lock
      → memory_write lock q new S ≡ some S2
      → Keeps S2
  unfolding internal_write
  wrote-Keeps S2 lock q new g h =
      let held : (util_lock lock S).0 ≡ true = written_held lock q new S h in
      let L = util_lock-Locked lock S held in
      let item = raw q (read_bytes q (length new) S.memory) in
      subst Keeps (ap (internal_write q new) (sym L.state) ∙ memory_write_inv lock q new S h) (
        write-Keeps lock q new item (util_lock lock S).1 L (util_lock-Owned lock S p.owned) g
          (λ m. refl) (λ a o r. rw (length-read_bytes) (o, r)))

  abort_nested-Keeps :
      (inner : List Transaction) → S.transactions ≡ inner → inner ≢ [] → Keeps (tr_abort S)
  abort_nested-Keeps [] e h = absurd (h refl)
  abort_nested-Keeps (t ∷ rest) e h =
      subst Keeps (sym (tr_abort-nested_lem S t rest e)) (rollback-Kept guard even s p t rest busy)

  commit_nested-Keeps :
      (t : CommitType) (inner : List Transaction)
      → S.transactions ≡ inner
      → inner ≢ []
      → Keeps (tr_commit t S).state
  commit_nested-Keeps t [] e h = absurd (h refl)
  commit_nested-Keeps t (u ∷ rest) e h = subst Keeps (sym (tr_commit-nested_lem t S u rest e)) (
      quiet-Kept guard even s p S.log S.read_set rest (tr_commit t S).state.commit_type busy
        (λ m. refl) (λ a x. x))

  pub Works-Keeps : {S2 : State} → Works guard S S2 → Keeps S2
  unfolding tr_memory_alloc tr_memory_free internal_node_write
  Works-Keeps {S2} (wrote lock q new g h) = wrote-Keeps S2 lock q new g h
  Works-Keeps {S2} (node_wrote lock q offset new g h) =
      let held : (util_lock lock S).0 ≡ true = node_written_held lock q offset new S h in
      let L = util_lock-Locked lock S held in
      let item = node_modify q offset (read_bytes (q + offset) (length new) S.memory) new in
      subst Keeps
        (ap (internal_node_write q offset new) (sym L.state) ∙ node_write_inv lock q offset new S h)
        (write-Keeps lock (q + offset) new item (util_lock lock S).1 L
          (util_lock-Owned lock S p.owned) g (λ m. refl) (λ a o r. rw (length-read_bytes) (o, r)))
  Works-Keeps {S2} (has_read lock q size bytes h) =
      subst Keeps (memory_read_inv lock q size bytes S h) (
        quiet-Kept guard even s p S.log (lock ∷ S.read_set) S.transactions S.commit_type busy
          (λ m. refl) (λ a u. u))
  Works-Keeps (allocated q) =
      quiet-Kept guard even s p (memory_alloc q ∷ S.log) S.read_set S.transactions S.commit_type
        busy (λ m. refl) (λ a u. u)
  Works-Keeps (released q) =
      quiet-Kept guard even s p (memory_delete q ∷ S.log) S.read_set S.transactions S.commit_type
        busy (λ m. refl) (λ a u. u)
  Works-Keeps nested = subst Keeps (sym (tr_begin-inside S busy)) (
      quiet-Kept guard even s p S.log S.read_set (inside S).transactions S.commit_type busy
        (λ m. refl) (λ a u. u))
  Works-Keeps (nested_aborted inner) = abort_nested-Keeps S.transactions refl inner
  Works-Keeps (nested_committed t inner) = commit_nested-Keeps t S.transactions refl inner
