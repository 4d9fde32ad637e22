-- ===== src/Transactions/Outcomes.antt =====
-- How main transactions are aborted.
use hybrid_databases.Base.{
  ℕ, ◌≡◌, ◌≢◌, refl, sym, ap, ◌∙◌, arith, true, List, [], length, ◌==◌, if◌then◌else◌, subst,
}
use hybrid_databases.Transactions.Memory.{LogItem, Bytes}
use hybrid_databases.Transactions.State.{State, ct_async, tr_begin, handle_rollback}
use hybrid_databases.Transactions.Commit.{
  tr_abort, tr_abort_main, tr_unlock, unlock_all, handle_cleanup, empty_transaction, later,
}
use hybrid_databases.Transactions.Runs.{Runs, Extends}
use hybrid_databases.Transactions.Rollback.{Runs-Extends, rollback_memory}
use hybrid_databases.Transactions.Locking.{Owned, unlock_all_lem, Runs-Owned}

-- A handle outside of every transaction.
pub record IsIdle (S : State) : Type 0 where
  pub start_time : S.start_time ≡ 0
  pub read_set : S.read_set ≡ []
  pub transactions : S.transactions ≡ []
  pub log : S.log ≡ []
  pub commit_type : S.commit_type ≡ ct_async
  pub acquired_locks : S.acquired_locks ≡ []

-- `S2` is the end, with `memory`, of a main transaction that had come to `S1`: the handle is idle,
-- and the locks it held have the time of the end as their version.
pub record Ended (S1 S2 : State) (memory : Bytes) : Type 0 where
  pub bytes : (a : ℕ) → S2.memory a ≡ memory a
  pub idle : IsIdle S2
  pub unlocked : (l : ℕ) → S2.locks l ≡ (if S1.locks l == S1.me then S2.time else S1.locks l)

tr_abort-top : (S : State) → S.transactions ≡ [] → tr_abort S ≡ tr_abort_main S
unfolding tr_abort
tr_abort-top S e = rw e refl

-- The versions that unlocking leaves, when all locks that are held are on the stack.
pub unlock_all-Owned :
    (S : State) (ver : ℕ) (l : ℕ)
    → Owned S
    → unlock_all S.me ver S.acquired_locks S.locks l
      ≡ (if S.locks l == S.me then ver else S.locks l)
unfolding Owned
unlock_all-Owned S ver l o = ground (arith, unlock_all_lem S.me ver S.acquired_locks S.locks l, o l)

pub abort-Ended :
    {S : State} (S2 : State)
    → Extends S S2
    → S.log ≡ []
    → Owned S2
    → Ended S2 (tr_abort_main S2) S.memory
unfolding tr_abort_main tr_unlock handle_rollback handle_cleanup
abort-Ended {S} S2 E n o = record {
  bytes = λ a. rollback_memory empty_transaction E (sym (ap (λ (l : List LogItem). length l) n)) a;
  idle = record {
    start_time = refl;
    read_set = refl;
    transactions = refl;
    log = refl;
    commit_type = refl;
    acquired_locks = refl;
  };
  unlocked = λ l. unlock_all-Owned S2 (later S2.time) l o;
}

module _ {S S1 : State} (idle : IsIdle S) (b : S.time ≢ 0) (r : Runs (tr_begin S) S1) where
  abbrev started : State
  started = record S { start_time = S.time }

  tr_begin-started : tr_begin S ≡ started
  unfolding tr_begin
  tr_begin-started =
      let e : (S.start_time == 0) ≡ true = ground (arith, idle.start_time) in rw e refl

  busy : (tr_begin S).start_time ≢ 0
  busy = subst (λ x. x.start_time ≢ 0) (sym tr_begin-started) b

  pub main-Extends : Extends started S1
  main-Extends = subst (λ x. Extends x S1) tr_begin-started (Runs-Extends busy r)

  pub main-Owned : ((l : ℕ) → S.locks l ≢ S.me) → Owned S1
  main-Owned free =
      Runs-Owned busy r
        (subst Owned (sym tr_begin-started) (unfold Owned in λ l e. absurd (free l e)))

  -- The abort of a main transaction, of a handle that began it idle, without a lock and at a time
  -- other than 0, gives back the memory of its beginning, byte for byte, leaves
  -- the handle idle, and releases exactly the locks that the handle held.
  pub tr_abort-main : ((l : ℕ) → S.locks l ≢ S.me) → Ended S1 (tr_abort S1) S.memory
  tr_abort-main free =
      subst (λ x. Ended S1 x S.memory)
        (sym (tr_abort-top S1 (main-Extends.transactions ∙ idle.transactions)))
        (abort-Ended S1 main-Extends idle.log (main-Owned free))
