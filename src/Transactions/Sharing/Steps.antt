-- ===== src/Transactions/Sharing/Steps.antt =====
-- What holds of the database and its handles in every state that the calls of
-- database.include/transaction.c, inline.h and macros.h reach.
use hybrid_databases.Base.{ℕ, ◌≡◌, ◌≢◌, refl, sym, subst, arith, Bool, true, false, ◌==◌}
use native.Mathlib.Decide.{ℕ_discrete}
use hybrid_databases.Utils.Lock.Interleaving.{IsNaming}
use hybrid_databases.Transactions.Memory.{Bytes}
use hybrid_databases.Transactions.State.{State, tr_begin}
use hybrid_databases.Transactions.Commit.{tr_abort_main, tr_commit_main}
use hybrid_databases.Transactions.Locking.{Owned}
use hybrid_databases.Transactions.Sharing.{
  System, view, update, settled, Step, begins, works, aborts, commits, IsFresh, Reach, start, later,
}
use hybrid_databases.Transactions.Sharing.Undoing.{undone, Untouched, undone-Untouched}
use hybrid_databases.Transactions.Sharing.Frames.{Part, Shared, Inv, others}
use hybrid_databases.Transactions.Sharing.Moves.{Kept, begun-Kept}
use hybrid_databases.Transactions.Sharing.Ends.{
  abort-Finished, commit-Finished, outcome, finish-Kept,
}
use hybrid_databases.Transactions.Sharing.Working.{Works-Keeps}

module _ (guard name : ℕ → ℕ) (n : IsNaming name) where
  -- What holds after a move of one handle
  assemble :
      {Z : System} (i : ℕ) (S2 : State) (committed2 : Bytes) (snapshot2 : ℕ → Bytes)
      → Inv guard name Z
      → Kept guard (name i) (view i Z) S2 Z.committed committed2 (snapshot2 i)
      → ((j : ℕ) → j ≢ i → snapshot2 j ≡ Z.snapshot j)
      → Inv guard name (record {
        shared = S2;
        handle = update i S2 Z.handle;
        committed = committed2;
        snapshot = snapshot2;
      })
  assemble {Z} i S2 committed2 snapshot2 v k keep = record {
    common = k.common;
    part = λ j. elim (ℕ_discrete j i) [
      | yes e ↦
          let test : (j == i) ≡ true = ground arith in
          rw test (subst (λ l. Part guard (name l) S2 committed2 (snapshot2 l)) (sym e) k.mine)
      | no ne ↦
          let test : (j == i) ≡ false = ground arith in
          let apart : name j ≢ name i = λ e. ne (n.distinct j i e) in
          rw test (
            subst (Part guard (name j) _ committed2) (sym (keep j ne))
              (others guard (Z.handle j) (n.even i) (n.even j) apart k.moves (v.part j)))
    ];
  }

module _ (guard name : ℕ → ℕ) (n : IsNaming name) where
  fresh-Inv : {Z : System} → IsFresh name Z → Inv guard name Z
  unfolding Owned
  fresh-Inv {Z} f = record {
    common = record {
      clock = f.clock;
      old = λ l h. ground (arith, f.locks l, f.clock);
      clean = λ a h. f.memory a;
    };
    part = λ j. record {
      me = f.me j;
      dirty = λ a h. ground (arith, f.locks (guard a), n.even j);
      untouched = λ a h. subst (λ l. Untouched l a) (sym (f.idle j).log) tt;
      current = λ a b h. absurd (b (f.idle j).start_time);
      started = ground (arith, (f.idle j).start_time);
      idle = λ z. ((f.idle j).log, λ l h. ground (arith, f.locks l, n.even j));
      owned = λ l h. ground (arith, f.locks l, n.even j, f.me j);
    };
  }

  module _ {Z : System} (v : Inv guard name Z) (i : ℕ) where
    outcome-settled :
        (success : Bool) (a : ℕ)
        → Z.shared.locks (guard a) ≡ name i
        → outcome success (view i Z) a ≡ settled guard name i success Z a
    outcome-settled true a h = ground arith
    outcome-settled false a h = (v.part i).dirty a h

    outcome_beside :
        (success : Bool) (a : ℕ)
        → Z.shared.locks (guard a) ≢ name i
        → (outcome success (view i Z) a ≡ Z.shared.memory a)
          × (settled guard name i success Z a ≡ Z.committed a)
    outcome_beside true a h = (refl, ground arith)
    outcome_beside false a h =
        (undone-Untouched (Z.handle i).log Z.shared.memory a ((v.part i).untouched a h), refl)

  common_view : {Z : System} (i : ℕ) → Inv guard name Z → Shared guard (view i Z) Z.committed
  common_view i v = record { clock = v.common.clock; old = v.common.old; clean = v.common.clean }

  Step-Inv : {Z Z2 : System} → Inv guard name Z → Step guard name Z Z2 → Inv guard name Z2
  Step-Inv {Z} v (begins i e) =
      let test : (i == i) ≡ true = ground arith in
      assemble guard name n i (tr_begin (view i Z)) Z.committed (update i Z.committed Z.snapshot) v
        (rw test (begun-Kept guard (n.even i) (common_view i v) (v.part i) e))
        (λ j ne. let other : (j == i) ≡ false = ground arith in rw other refl)
  Step-Inv {Z} v (works i {S} b w) =
      assemble guard name n i S Z.committed Z.snapshot v
        (Works-Keeps guard (n.even i) (common_view i v) (v.part i) b w) (λ j ne. refl)
  Step-Inv {Z} v (aborts i b c) =
      let S = view i Z in
      let p = v.part i in
      assemble guard name n i (tr_abort_main S) Z.committed Z.snapshot v
        (finish-Kept guard (n.even i) (common_view i v) p (tr_abort_main S) (undone S.log S.memory)
          Z.committed (abort-Finished S p.owned v.common.clock (omega arith)) p.dirty
          (λ a h. (undone-Untouched S.log S.memory a (p.untouched a h), refl)))
        (λ j ne. refl)
  Step-Inv {Z} v (commits i t b c) =
      let S = view i Z in
      let p = v.part i in
      let A = tr_commit_main t S in
      assemble guard name n i A.state (settled guard name i A.success Z) Z.snapshot v
        (finish-Kept guard (n.even i) (common_view i v) p A.state (outcome A.success S)
          (settled guard name i A.success Z) (commit-Finished t S p.owned v.common.clock c)
          (outcome-settled v i A.success) (outcome_beside v i A.success))
        (λ j ne. refl)

  pub Reach-Inv : {Z : System} → Reach guard name Z → Inv guard name Z
  Reach-Inv (start f) = fresh-Inv f
  Reach-Inv (later r s) = Step-Inv (Reach-Inv r) s
