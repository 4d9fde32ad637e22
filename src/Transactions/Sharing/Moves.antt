-- ===== src/Transactions/Sharing/Moves.antt =====
-- Each call of a transaction of database.include/transaction.c, inline.h and macros.h keeps what
-- holds of the database and of its own handle, and moves only what is its own.
use hybrid_databases.Base.{ℕ, ◌%◌, ◌≡◌, ◌≢◌, inl, refl, ap, ◌∙◌, arith, true, List, ◌==◌}
use hybrid_databases.Transactions.Memory.{Bytes, LogItem}
use hybrid_databases.Transactions.State.{CommitType, Transaction, State, tr_begin, handle_rollback}
use hybrid_databases.Transactions.Locking.{Owned}
use hybrid_databases.Transactions.Sharing.Undoing.{undone, Untouched, undo_to-Cut}
use hybrid_databases.Transactions.Sharing.Frames.{Part, Shared, Moves}

module _ (guard : ℕ → ℕ) where
  pub record Kept (who : ℕ) (S S2 : State) (committed committed2 snapshot : Bytes) : Type 0 where
    pub common : Shared guard S2 committed2
    pub mine : Part guard who S2 committed2 snapshot
    pub moves : Moves guard who S S2 committed committed2

  module _ {who : ℕ} {S : State} {committed snapshot : Bytes} (even : who % 2 ≡ 0)
      (s : Shared guard S committed) (p : Part guard who S committed snapshot) where
    -- The start of a transaction
    pub begun-Kept : S.start_time ≡ 0 → Kept who S (tr_begin S) committed committed committed
    unfolding tr_begin Owned
    begun-Kept e =
        let test : (S.start_time == 0) ≡ true = ground arith in
        rw test (record {
          common = record { clock = s.clock; old = s.old; clean = s.clean };
          mine = record {
            me = p.me;
            dirty = p.dirty;
            untouched = p.untouched;
            current = λ a b h. refl;
            started = omega arith;
            idle = λ z. ground (arith, s.clock);
            owned = p.owned;
          };
          moves = record {
            time = omega arith;
            locks = λ l. inl refl;
            memory = λ a h h2. refl;
            settled = λ a h. refl;
          };
        })

    -- A call that changes only what no other handle sees, and no byte
    pub quiet-Kept :
        (log : List LogItem) (read_set : List ℕ) (transactions : List Transaction)
        (commit_type : CommitType)
        → S.start_time ≢ 0
        → ((m : Bytes) → undone log m ≡ undone S.log m)
        → ((a : ℕ) → Untouched S.log a → Untouched log a)
        → Kept who S
            (record S {
              log = log;
              read_set = read_set;
              transactions = transactions;
              commit_type = commit_type;
            })
            committed
            committed
            snapshot
    unfolding Owned
    quiet-Kept log read_set transactions commit_type b u t = record {
      common = record { clock = s.clock; old = s.old; clean = s.clean };
      mine = record {
        me = p.me;
        dirty = λ a h. ap (λ (m : Bytes). m a) (u S.memory) ∙ p.dirty a h;
        untouched = λ a h. t a (p.untouched a h);
        current = p.current;
        started = p.started;
        idle = λ z. ground arith;
        owned = p.owned;
      };
      moves = record {
        time = omega arith;
        locks = λ l. inl refl;
        memory = λ a h h2. refl;
        settled = λ a h. refl;
      };
    }

    -- The rollback of a nested transaction
    pub rollback-Kept :
        (nested : Transaction) (rest : List Transaction)
        → S.start_time ≢ 0
        → Kept who S
            (record (handle_rollback nested S) { transactions = rest })
            committed
            committed
            snapshot
    unfolding handle_rollback Owned
    rollback-Kept nested rest b =
        let c = undo_to-Cut nested.pos S.time S.log S.memory S.freed in
        let same = λ (a : ℕ) (h : S.locks (guard a) ≢ who). c.same a (p.untouched a h) in
        record {
          common = record {
            clock = s.clock;
            old = s.old;
            clean = λ a h. (same a (ground arith)).0 ∙ s.clean a h;
          };
          mine = record {
            me = p.me;
            dirty = λ a h. c.left a ∙ p.dirty a h;
            untouched = λ a h. (same a h).1;
            current = p.current;
            started = p.started;
            idle = λ z. ground arith;
            owned = p.owned;
          };
          moves = record {
            time = omega arith;
            locks = λ l. inl refl;
            memory = λ a h h2. (same a h).0;
            settled = λ a h. refl;
          };
        }
