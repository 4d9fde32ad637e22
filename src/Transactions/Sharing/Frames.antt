-- ===== src/Transactions/Sharing/Frames.antt =====
-- What holds of the database and its handles in every state, and which moves of one handle keep it
-- for the others (database.include/transaction.c).
use hybrid_databases.Base.{ℕ, ◌%◌, ◌≡◌, ◌≢◌, ◌≤◌, ◌<◌, ◌⊎◌, sym, ◌∙◌, subst, arith, []}
use hybrid_databases.Transactions.Memory.{Bytes}
use hybrid_databases.Transactions.State.{State}
use hybrid_databases.Transactions.Locking.{Owned}
use hybrid_databases.Transactions.Sharing.{System, view}
use hybrid_databases.Transactions.Sharing.Undoing.{undone, Untouched, undone_at}

-- A lock that a handle which began at `start` still passes
abbrev pub Passes : ℕ → ℕ → ℕ → Type 0
Passes value me start = ((value % 2 ≡ 1) × (value ≤ start)) ⊎ (value ≡ me)

-- What a move of the handle `me` does to a lock: nothing, it takes it, or gives it a new version.
abbrev pub Moved : ℕ → ℕ → ℕ → ℕ → Type 0
Moved me time value value2 =
    (value2 ≡ value)
    ⊎ ((value % 2 ≡ 1) × (value2 ≡ me))
    ⊎ ((value ≡ me) × (value2 % 2 ≡ 1) × (time < value2))

module _ (guard : ℕ → ℕ) where
  -- Of a handle in a state, for the committed memory and its snapshot: its log leads from what it
  -- has locked to the committed memory and holds nothing else, and where it passes the locks, the
  -- committed memory is still that of its snapshot.
  pub record Part (who : ℕ) (S : State) (committed snapshot : Bytes) : Type 0 where
    pub me : S.me ≡ who
    pub dirty : (a : ℕ) → S.locks (guard a) ≡ who → undone S.log S.memory a ≡ committed a
    pub untouched : (a : ℕ) → S.locks (guard a) ≢ who → Untouched S.log a
    pub current :
        (a : ℕ)
        → S.start_time ≢ 0
        → Passes (S.locks (guard a)) who S.start_time
        → committed a ≡ snapshot a
    pub started : S.start_time ≤ S.time
    pub idle : S.start_time ≡ 0 → (S.log ≡ []) × ((l : ℕ) → S.locks l ≢ who)
    pub owned : Owned S

  pub record Shared (S : State) (committed : Bytes) : Type 0 where
    pub clock : S.time % 2 ≡ 1
    pub old : (l : ℕ) → S.locks l % 2 ≡ 1 → S.locks l ≤ S.time
    pub clean : (a : ℕ) → S.locks (guard a) % 2 ≡ 1 → S.memory a ≡ committed a

  pub record Inv (name : ℕ → ℕ) (Z : System) : Type 0 where
    pub common : Shared Z.shared Z.committed
    pub part : (j : ℕ) → Part (name j) (view j Z) Z.committed (Z.snapshot j)

  pub record Moves (me : ℕ) (S S2 : State) (committed committed2 : Bytes) : Type 0 where
    pub time : S.time ≤ S2.time
    pub locks : (l : ℕ) → Moved me S.time (S.locks l) (S2.locks l)
    pub memory :
        (a : ℕ) → S.locks (guard a) ≢ me → S2.locks (guard a) ≢ me → S2.memory a ≡ S.memory a
    pub settled : (a : ℕ) → S.locks (guard a) ≢ me → committed2 a ≡ committed a

  -- The other handles keep what holds of them.
  pub others :
      {me other : ℕ} {S S2 : State} {committed committed2 snapshot : Bytes} (H : State)
      → me % 2 ≡ 0
      → other % 2 ≡ 0
      → other ≢ me
      → Moves me S S2 committed committed2
      → Part other
          (record H {
            time = S.time;
            locks = S.locks;
            memory = S.memory;
            freed = S.freed;
            queue = S.queue;
          })
          committed
          snapshot
      → Part other
          (record H {
            time = S2.time;
            locks = S2.locks;
            memory = S2.memory;
            freed = S2.freed;
            queue = S2.queue;
          })
          committed2
          snapshot
  unfolding Owned
  others {me} {other} {S} {S2} {committed} {committed2} {snapshot} H even even2 ne M p = record {
    me = p.me;
    dirty = λ a h.
        let before : S.locks (guard a) ≡ other = ground (arith, M.locks (guard a)) in
        undone_at H.log S2.memory S.memory a (M.memory a (ground arith) (ground arith))
        ∙ p.dirty a before
        ∙ sym (M.settled a (ground arith));
    untouched = λ a h. p.untouched a (ground (arith, M.locks (guard a)));
    current = λ a b h.
        let same : S2.locks (guard a) ≡ S.locks (guard a) =
          ground (arith, M.locks (guard a), p.started) in
        let kept : Passes (S.locks (guard a)) other H.start_time =
          subst (λ v. Passes v other H.start_time) same h in
        M.settled a (ground arith) ∙ p.current a b kept;
    started = ground (arith, M.time, p.started);
    idle = λ e. ((p.idle e).0, λ l h. (p.idle e).1 l (ground (arith, M.locks l)));
    owned = λ l h. ground (arith, p.owned l, M.locks l);
  }
