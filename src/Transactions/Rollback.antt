-- ===== src/Transactions/Rollback.antt =====
-- The abort of a nested transaction gives back everything but the locks it still holds.
use hybrid_databases.Base.{
  ℕ, ◌-◌, ◌≡◌, ◌≢◌, refl, sym, ap, ◌∙◌, arith, false, List, [], ◌∷◌, ◌++◌, length, drop, ◌==◌,
  length-append, drop-append, append_assoc, subst,
}
use hybrid_databases.Transactions.Memory.{
  Bytes, LogItem, memory_alloc, memory_delete, Freed, log_undo_item, undo_to,
}
use hybrid_databases.Transactions.State.{
  CommitType, Transaction, State, tr_memory_alloc, tr_memory_free, tr_begin, handle_rollback,
}
use hybrid_databases.Transactions.Commit.{tr_abort, tr_commit}
use hybrid_databases.Transactions.Undo.{
  undo_items, undo_to-undo_items, undo_items_cong, undo_items-append,
}
use hybrid_databases.Transactions.Runs.{
  Runs, done, wrote, node_wrote, has_read, allocated, released, ticked, committed, aborted, Extends,
  Restored, Extends-self, logged, wrote-Extends, node_wrote-Extends, has_read-Extends,
}

-- A nested transaction, as `tr_begin` starts it inside of another.
abbrev pub nested : State → Transaction
nested S = record {
  read_set = length S.read_set;
  acquired_locks = length S.acquired_locks;
  pos = length S.log;
  commit_type = S.commit_type;
}

abbrev pub inside : State → State
inside S = record S { transactions = nested S ∷ S.transactions }

pub tr_begin-inside : (S : State) → S.start_time ≢ 0 → tr_begin S ≡ inside S
unfolding tr_begin
tr_begin-inside S h = let e : (S.start_time == 0) ≡ false = ground arith in rw e refl

drop_to : (xs ys : List ℕ) → drop (length (xs ++ ys) - length ys) (xs ++ ys) ≡ ys
drop_to xs ys =
    let e : length (xs ++ ys) - length ys ≡ length xs = omega (arith, length-append xs ys) in
    rw e (drop-append xs ys)

-- The rollback to what a transaction kept, with the memory and the log that it leaves.
module _ {S S' : State} (t : Transaction) (E : Extends S S') (p : t.pos ≡ length S.log) where
  undone :
      undo_to t.pos S'.time S'.log (S'.memory, S'.freed)
      ≡ (S.log, undo_items E.items S'.time (S'.memory, S'.freed))
  undone = rw p (
      ap (λ l. undo_to (length S.log) S'.time l (S'.memory, S'.freed)) E.log
      ∙ undo_to-undo_items E.items S.log S'.time (S'.memory, S'.freed))

  pub rollback_memory : (a : ℕ) → (handle_rollback t S').memory a ≡ S.memory a
  unfolding handle_rollback
  rollback_memory a =
      ap (λ (z : List LogItem × (Bytes × List Freed)). z.1.0 a) undone ∙ E.undoes S'.time S'.freed a

  pub rollback_log : (handle_rollback t S').log ≡ S.log
  unfolding handle_rollback
  rollback_log = ap (λ (z : List LogItem × (Bytes × List Freed)). z.0) undone

-- The rollback of a nested transaction.
abort_inside : {S S' : State} → Extends (inside S) S' → Restored S (tr_abort S')
unfolding tr_abort handle_rollback
abort_inside {S} {S'} E = rw E.transactions (record {
  memory = rollback_memory (nested S) E refl;
  log = rollback_log (nested S) E refl;
  read_set = rw E.read_set (drop_to E.more S.read_set);
  transactions = refl;
  commit_type = refl;
  start_time = E.start_time;
  me = E.me;
})

extend_by : {S S1 S2 : State} → Extends S S1 → Extends S1 S2 → Extends S S2
extend_by E F = record {
  items = F.items ++ E.items;
  log = F.log ∙ ap (λ l. F.items ++ l) E.log ∙ sym (append_assoc F.items E.items _);
  undoes = λ time f a.
      ap (λ (z : Bytes × List Freed). z.0 a) (undo_items-append time F.items E.items _)
      ∙ undo_items_cong time E.items _ _ _ f (F.undoes time f) a
      ∙ E.undoes time f a;
  more = F.more ++ E.more;
  read_set = F.read_set ∙ ap (λ l. F.more ++ l) E.read_set ∙ sym (append_assoc F.more E.more _);
  transactions = F.transactions ∙ E.transactions;
  start_time = F.start_time ∙ E.start_time;
  me = F.me ∙ E.me;
}

Restored-Extends : {S S' : State} → Restored S S' → Extends S S'
Restored-Extends R = record {
  items = [];
  log = R.log;
  undoes = λ time f a. unfold undo_items in R.memory a;
  more = [];
  read_set = R.read_set;
  transactions = R.transactions;
  start_time = R.start_time;
  me = R.me;
}

commit_inside :
    {S S' : State} (t : CommitType) → Extends (inside S) S' → Extends S (tr_commit t S').state
unfolding tr_commit
commit_inside t E = rw E.transactions (record {
  items = E.items;
  log = E.log;
  undoes = E.undoes;
  more = E.more;
  read_set = E.read_set;
  transactions = refl;
  start_time = E.start_time;
  me = E.me;
})

pub begin_busy : (S : State) → S.start_time ≢ 0 → (tr_begin S).start_time ≢ 0
begin_busy S b = subst (λ x. x.start_time ≢ 0) (sym (tr_begin-inside S b)) b

pub still_busy : {S S1 : State} → S.start_time ≢ 0 → Extends S S1 → S1.start_time ≢ 0
still_busy b E e = b (sym E.start_time ∙ e)

-- Whatever a transaction does, nested transactions that end in it included, its log leads back.
pub Runs-Extends : {S S' : State} → S.start_time ≢ 0 → Runs S S' → Extends S S'
unfolding tr_memory_alloc tr_memory_free log_undo_item
Runs-Extends b (done {S}) = Extends-self S
Runs-Extends b (wrote {S} {S1} {S2} lock p new r h) =
    wrote-Extends S2 (Runs-Extends b r) lock p new h
Runs-Extends b (node_wrote {S} {S1} {S2} lock p offset new r h) =
    node_wrote-Extends S2 (Runs-Extends b r) lock p offset new h
Runs-Extends b (has_read {S} {S1} {S2} lock p size bytes r h) =
    has_read-Extends S2 (Runs-Extends b r) lock p size bytes h
Runs-Extends b (allocated {S} {S1} p r) =
    logged _ (memory_alloc p) (Runs-Extends b r) refl (λ time f a. refl) refl refl refl refl
Runs-Extends b (released {S} {S1} p r) =
    logged _ (memory_delete p) (Runs-Extends b r) refl (λ time f a. refl) refl refl refl refl
Runs-Extends b (ticked {S} {S1} t r) =
    let E = Runs-Extends b r in
    record {
      items = E.items;
      log = E.log;
      undoes = E.undoes;
      more = E.more;
      read_set = E.read_set;
      transactions = E.transactions;
      start_time = E.start_time;
      me = E.me;
    }
Runs-Extends b (committed {S} {S1} {S2} t r q) =
    let E = Runs-Extends b r in
    let b1 = still_busy b E in
    extend_by E (
      commit_inside t
        (subst (λ x. Extends x S2) (tr_begin-inside S1 b1) (Runs-Extends (begin_busy S1 b1) q)))
Runs-Extends b (aborted {S} {S1} {S2} r q) =
    let E = Runs-Extends b r in
    let b1 = still_busy b E in
    extend_by E (
      Restored-Extends (
        abort_inside
          (subst (λ x. Extends x S2) (tr_begin-inside S1 b1) (Runs-Extends (begin_busy S1 b1) q))))

-- The abort of a nested transaction of a handle whose start time is not 0, whatever happened in
-- it, gives back the memory byte for byte,
-- the log, the read set, the nested transactions and the commit type of its beginning.
pub tr_abort-nested :
    {S S' : State} → S.start_time ≢ 0 → Runs (tr_begin S) S' → Restored S (tr_abort S')
tr_abort-nested {S} {S'} b r =
    abort_inside (subst (λ x. Extends x S') (tr_begin-inside S b) (Runs-Extends (begin_busy S b) r))
