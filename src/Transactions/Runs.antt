-- ===== src/Transactions/Runs.antt =====
-- What a transaction does, step by step, and that every step can be undone.
use hybrid_databases.Base.{
  ℕ, ◌+◌, ◌≡◌, refl, ap, ◌∙◌, arith, some, List, [], ◌∷◌, ◌++◌, length, ◌==◌, Bool-cases, inl, inr,
  subst,
}
use hybrid_databases.Transactions.Memory.{
  Bytes, read_bytes, LogItem, raw, node_modify, Freed, log_undo_item,
}
use hybrid_databases.Utils.Lock.{l_lock, l_check}
use hybrid_databases.Transactions.State.{
  CommitType, State, util_lock, internal_write, internal_node_write, memory_write, node_write,
  memory_read, tr_memory_alloc, tr_memory_free, tr_begin,
}
use hybrid_databases.Transactions.Commit.{tr_abort, tr_commit}
use hybrid_databases.Transactions.Undo.{undo_write, undo_items, undo_items_cong}

-- What a transaction does from one state to another; nested transactions end in it. `ticked` is
-- the time that other threads move on.
pub data Runs : State → State → Type 0 where
  done : {S : State} → Runs S S
  wrote :
      {S S1 S2 : State} (lock p : ℕ) (new : List ℕ)
      → Runs S S1
      → memory_write lock p new S1 ≡ some S2
      → Runs S S2
  node_wrote :
      {S S1 S2 : State} (lock p offset : ℕ) (new : List ℕ)
      → Runs S S1
      → node_write lock p offset new S1 ≡ some S2
      → Runs S S2
  has_read :
      {S S1 S2 : State} (lock p size : ℕ) (bytes : List ℕ)
      → Runs S S1
      → memory_read lock p size S1 ≡ some (bytes, S2)
      → Runs S S2
  allocated : {S S1 : State} (p : ℕ) → Runs S S1 → Runs S (tr_memory_alloc p S1)
  released : {S S1 : State} (p : ℕ) → Runs S S1 → Runs S (tr_memory_free p S1)
  ticked : {S S1 : State} (t : ℕ) → Runs S S1 → Runs S (record S1 { time = t })
  committed :
      {S S1 S2 : State} (t : CommitType)
      → Runs S S1
      → Runs (tr_begin S1) S2
      → Runs S (tr_commit t S2).state
  aborted : {S S1 S2 : State} → Runs S S1 → Runs (tr_begin S1) S2 → Runs S (tr_abort S2)

-- A state that the same transaction has reached: what it logged since leads back to the memory.
pub record Extends (S S' : State) : Type 0 where
  pub items : List LogItem
  pub log : S'.log ≡ items ++ S.log
  pub undoes :
      (time : ℕ) (f : List Freed) (a : ℕ) → (undo_items items time (S'.memory, f)).0 a ≡ S.memory a
  pub more : List ℕ
  pub read_set : S'.read_set ≡ more ++ S.read_set
  pub transactions : S'.transactions ≡ S.transactions
  pub start_time : S'.start_time ≡ S.start_time
  pub me : S'.me ≡ S.me

-- A state with the memory, the log and the sets of another.
pub record Restored (S S' : State) : Type 0 where
  pub memory : (a : ℕ) → S'.memory a ≡ S.memory a
  pub log : S'.log ≡ S.log
  pub read_set : S'.read_set ≡ S.read_set
  pub transactions : S'.transactions ≡ S.transactions
  pub commit_type : S'.commit_type ≡ S.commit_type
  pub start_time : S'.start_time ≡ S.start_time
  pub me : S'.me ≡ S.me

pub Extends-self : (S : State) → Extends S S
Extends-self S = record {
  items = [];
  log = refl;
  undoes = λ time f a. unfold undo_items in refl;
  more = [];
  read_set = refl;
  transactions = refl;
  start_time = refl;
  me = refl;
}

-- One more item on the log.
pub logged :
    {S S1 : State} (S2 : State) (item : LogItem)
    → Extends S S1
    → S2.log ≡ item ∷ S1.log
    → ((time : ℕ) (f : List Freed) (a : ℕ)
        → (log_undo_item item time (S2.memory, f)).0 a ≡ S1.memory a)
    → S2.read_set ≡ S1.read_set
    → S2.transactions ≡ S1.transactions
    → S2.start_time ≡ S1.start_time
    → S2.me ≡ S1.me
    → Extends S S2
logged S2 item E l u r t s m = record {
  items = item ∷ E.items;
  log = l ∙ ap (λ x. item ∷ x) E.log;
  undoes = λ time f a.
      unfold undo_items in undo_items_cong time E.items _ _ _ f (u time f) a ∙ E.undoes time f a;
  more = E.more;
  read_set = r ∙ E.read_set;
  transactions = t ∙ E.transactions;
  start_time = s ∙ E.start_time;
  me = m ∙ E.me;
}

-- Some more reads.
was_read :
    {S S1 : State} (S2 : State) (lock : ℕ)
    → Extends S S1
    → S2.log ≡ S1.log
    → S2.memory ≡ S1.memory
    → S2.read_set ≡ lock ∷ S1.read_set
    → S2.transactions ≡ S1.transactions
    → S2.start_time ≡ S1.start_time
    → S2.me ≡ S1.me
    → Extends S S2
was_read S2 lock E l w r t s m = record {
  items = E.items;
  log = l ∙ E.log;
  undoes = λ time f a.
      undo_items_cong time E.items _ _ f f (λ x. ap (λ (z : Bytes). z x) w) a ∙ E.undoes time f a;
  more = lock ∷ E.more;
  read_set = r ∙ ap (λ x. lock ∷ x) E.read_set;
  transactions = t ∙ E.transactions;
  start_time = s ∙ E.start_time;
  me = m ∙ E.me;
}

-- Taking a lock changes only the locks.
pub record OnlyLocks (S S' : State) : Type 0 where
  pub log : S'.log ≡ S.log
  pub memory : S'.memory ≡ S.memory
  pub read_set : S'.read_set ≡ S.read_set
  pub transactions : S'.transactions ≡ S.transactions
  pub start_time : S'.start_time ≡ S.start_time
  pub me : S'.me ≡ S.me

pub util_lock-OnlyLocks : (lock : ℕ) (S : State) → OnlyLocks S (util_lock lock S).1
unfolding util_lock
util_lock-OnlyLocks lock S =
    let same : OnlyLocks S S = record {
      log = refl;
      memory = refl;
      read_set = refl;
      transactions = refl;
      start_time = refl;
      me = refl;
    } in
    elim (Bool-cases ((l_lock (S.locks lock) S.me S.start_time).1 == 0)) [
      | inl e ↦ rw e same
      | inr e ↦ rw e (elim (Bool-cases ((l_lock (S.locks lock) S.me S.start_time).1 == 1)) [
        | inl d ↦ rw d (record {
          log = refl;
          memory = refl;
          read_set = refl;
          transactions = refl;
          start_time = refl;
          me = refl;
        })
        | inr d ↦ rw d (record {
          log = refl;
          memory = refl;
          read_set = refl;
          transactions = refl;
          start_time = refl;
          me = refl;
        })
      ])
    ]

module _ (lock p : ℕ) (new : List ℕ) (S : State) {S2 : State} where
  pub memory_write_inv :
      memory_write lock p new S ≡ some S2 → internal_write p new (util_lock lock S).1 ≡ S2
  unfolding memory_write
  memory_write_inv h = elim (Bool-cases (util_lock lock S).0) [
    | inl e ↦ ground arith
    | inr e ↦ ground arith
  ]

module _ (lock p offset : ℕ) (new : List ℕ) (S : State) {S2 : State} where
  pub node_write_inv :
      node_write lock p offset new S ≡ some S2
      → internal_node_write p offset new (util_lock lock S).1 ≡ S2
  unfolding node_write
  node_write_inv h = elim (Bool-cases (util_lock lock S).0) [
    | inl e ↦ ground arith
    | inr e ↦ ground arith
  ]

module _ (lock p size : ℕ) (bytes : List ℕ) (S : State) {S2 : State} where
  pub memory_read_inv :
      memory_read lock p size S ≡ some (bytes, S2) → record S { read_set = lock ∷ S.read_set } ≡ S2
  unfolding memory_read
  memory_read_inv h = elim (Bool-cases (l_check (S.locks lock) S.me S.start_time)) [
    | inl e ↦ ground arith
    | inr e ↦ ground arith
  ]

module _ {S S1 : State} (S2 : State) (E : Extends S S1) where
  pub wrote-Extends :
      (lock p : ℕ) (new : List ℕ) → memory_write lock p new S1 ≡ some S2 → Extends S S2
  unfolding internal_write log_undo_item
  wrote-Extends lock p new h =
      let o = util_lock-OnlyLocks lock S1 in
      let S' = (util_lock lock S1).1 in
      let item = raw p (read_bytes p (length new) S'.memory) in
      subst (λ x. Extends S x) (memory_write_inv lock p new S1 h)
        (logged (internal_write p new S') item E (ap (λ x. item ∷ x) o.log)
          (λ time f a. undo_write new p S'.memory a ∙ ap (λ (m : Bytes). m a) o.memory) o.read_set
          o.transactions o.start_time o.me)

  pub node_wrote-Extends :
      (lock p offset : ℕ) (new : List ℕ) → node_write lock p offset new S1 ≡ some S2 → Extends S S2
  unfolding internal_node_write log_undo_item
  node_wrote-Extends lock p offset new h =
      let o = util_lock-OnlyLocks lock S1 in
      let S' = (util_lock lock S1).1 in
      let item = node_modify p offset (read_bytes (p + offset) (length new) S'.memory) new in
      subst (λ x. Extends S x) (node_write_inv lock p offset new S1 h)
        (logged (internal_node_write p offset new S') item E (ap (λ x. item ∷ x) o.log)
          (λ time f a. undo_write new (p + offset) S'.memory a ∙ ap (λ (m : Bytes). m a) o.memory)
          o.read_set o.transactions o.start_time o.me)

  pub has_read-Extends :
      (lock p size : ℕ) (bytes : List ℕ)
      → memory_read lock p size S1 ≡ some (bytes, S2)
      → Extends S S2
  has_read-Extends lock p size bytes h =
      subst (λ x. Extends S x) (memory_read_inv lock p size bytes S1 h)
        (was_read (record S1 { read_set = lock ∷ S1.read_set }) lock E refl refl refl refl refl
          refl)
