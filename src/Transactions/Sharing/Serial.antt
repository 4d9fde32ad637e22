-- ===== src/Transactions/Sharing/Serial.antt =====
-- Transactions of several handles (database.include/transaction.c, inline.h and macros.h) see the
-- committed memory of one moment, and commit as if they ran in the moment of the commit.
use hybrid_databases.Base.{
  ℕ, zero, suc, ◌+◌, ◌%◌, ◌^◌, ◌≡◌, ◌≢◌, ◌<◌, inr, refl, sym, ◌∙◌, subst, arith, true, some, List,
  [], ◌∷◌, ◌==◌, if◌then◌else◌,
}
use native.Mathlib.Decide.{ℕ_discrete}
use hybrid_databases.Utils.Lock.{l_check}
use hybrid_databases.Utils.Lock.Interleaving.{IsNaming}
use hybrid_databases.Transactions.Memory.{Bytes, read_bytes}
use hybrid_databases.Transactions.State.{CommitType, State, memory_read}
use hybrid_databases.Transactions.Commit.{tr_commit_main, validate}
use hybrid_databases.Transactions.Locking.{has}
use hybrid_databases.Transactions.Sharing.{System, view, Guarded, answered, commits, Reach, later}
use hybrid_databases.Transactions.Sharing.Undoing.{Untouched}
use hybrid_databases.Transactions.Sharing.Frames.{Passes}
use hybrid_databases.Transactions.Sharing.Ends.{commit-validated}
use hybrid_databases.Transactions.Sharing.Steps.{Reach-Inv}

read_bytes_same :
    (n p : ℕ) (m m' : Bytes)
    → ((k : ℕ) → k < n → m (p + k) ≡ m' (p + k))
    → read_bytes p n m ≡ read_bytes p n m'
unfolding read_bytes
read_bytes_same zero p m m' e = refl
read_bytes_same (suc n) p m m' e =
    let first : m p ≡ m' p = ground (arith, e 0 (omega arith)) in
    rw (first, read_bytes_same n (p + 1) m m' (λ k h. ground (arith, e (k + 1) (omega arith)))) refl

-- A lock that a check lets pass
l_check-Passes : (value me begin : ℕ) → l_check value me begin ≡ true → Passes value me begin
unfolding l_check
l_check-Passes value me begin h = ground arith

-- Every lock of a read set that is validated passes.
validate-Passes :
    (me begin lock : ℕ) (read_set : List ℕ) (locks : ℕ → ℕ)
    → validate me begin read_set locks ≡ true
    → has lock read_set ≡ true
    → Passes (locks lock) me begin
unfolding validate has
validate-Passes me begin lock [] locks h i = ground arith
validate-Passes me begin lock (l ∷ read_set) locks h i = elim (ℕ_discrete lock l) [
  | yes e ↦ l_check-Passes (locks lock) me begin (ground arith)
  | no e ↦ validate-Passes me begin lock read_set locks (ground arith) (ground arith)
]

read_succeeds :
    (lock p size : ℕ) (S : State) {bytes : List ℕ} {S2 : State}
    → memory_read lock p size S ≡ some (bytes, S2)
    → (l_check (S.locks lock) S.me S.start_time ≡ true) × (bytes ≡ read_bytes p size S.memory)
unfolding memory_read
read_succeeds lock p size S h = ground arith

module _ {guard name : ℕ → ℕ} (n : IsNaming name) {Z : System} (r : Reach guard name Z) (i : ℕ)
    (busy : (Z.handle i).start_time ≢ 0) where
  -- In every state that several handles reach by beginning transactions, reads, writes, allocation
  -- and freeing of memory, nested transactions, aborts and commits, each a call as a whole, in
  -- whatever order, while the clock does not wrap around: a read that succeeds in a transaction, of
  -- bytes whose lock the handle does not hold, gives what the committed memory was when the
  -- transaction began, whatever was written and committed since.
  pub memory_read-snapshot :
      (lock p size : ℕ) {bytes : List ℕ} {S2 : State}
      → memory_read lock p size (view i Z) ≡ some (bytes, S2)
      → Guarded guard p size lock
      → Z.shared.locks lock ≢ name i
      → bytes ≡ read_bytes p size (Z.snapshot i)
  memory_read-snapshot lock p size h g free =
      let v = Reach-Inv guard name n r in
      let q = v.part i in
      let (c, e) = read_succeeds lock p size (view i Z) h in
      let passed : Passes (Z.shared.locks lock) (name i) (Z.handle i).start_time =
        subst (λ w. Passes (Z.shared.locks lock) w (Z.handle i).start_time) q.me
          (l_check-Passes _ _ _ c) in
      e
      ∙ read_bytes_same size p Z.shared.memory (Z.snapshot i) (λ k l.
        let at : Passes (Z.shared.locks (guard (p + k))) (name i) (Z.handle i).start_time =
          subst (λ x. Passes (Z.shared.locks x) (name i) (Z.handle i).start_time) (sym (g k l))
            passed in
        v.common.clean (p + k) (ground (arith, g k l)) ∙ q.current (p + k) busy at)

-- The commit of a handle that leads to `Z2`, as one of a transaction that runs at that moment
pub record IsSerial (guard name : ℕ → ℕ) (i : ℕ) (Z Z2 : System) : Type 0 where
  pub seen : (a : ℕ) → has (guard a) (Z.handle i).read_set ≡ true → Z.committed a ≡ Z.snapshot i a
  pub held : (a : ℕ) → Z.shared.locks (guard a) ≡ name i → Z.committed a ≡ Z.snapshot i a
  pub only : (a : ℕ) → Z.shared.locks (guard a) ≢ name i → Untouched (Z.handle i).log a
  pub result :
      (a : ℕ)
      → Z2.committed a
        ≡ (if Z.shared.locks (guard a) == name i then Z.shared.memory a else Z.committed a)
  pub clean : (a : ℕ) → Z2.shared.locks (guard a) % 2 ≡ 1 → Z2.shared.memory a ≡ Z2.committed a

-- In every state that several handles reach by beginning transactions, reads, writes, allocation
-- and freeing of memory, nested transactions, aborts and commits, each a call as a whole, in
-- whatever order, while the clock does not wrap around: where the commit of a handle that has
-- logged something succeeds, the committed memory still has what it had when the transaction began,
-- at every byte whose lock is in the read set and at every byte that the handle has locked; its log
-- holds bytes that it has locked only; and the committed memory becomes the old one with the
-- handle's memory at those bytes, which then is what the memory holds wherever no lock is held.
pub tr_commit_main-IsSerial :
    {guard name : ℕ → ℕ} {Z : System} (i : ℕ) (t : CommitType)
    → IsNaming name
    → Reach guard name Z
    → (Z.handle i).start_time ≢ 0
    → Z.shared.time + 4 < 2 ^ 64
    → (Z.handle i).log ≢ []
    → (tr_commit_main t (view i Z)).success ≡ true
    → IsSerial guard name i Z (answered guard name i (tr_commit_main t (view i Z)) Z)
tr_commit_main-IsSerial {guard} {name} {Z} i t n r busy clock logged success =
    let v = Reach-Inv guard name n r in
    let q = v.part i in
    let valid = commit-validated t (view i Z) (Z.handle i).log refl logged success in
    let v2 = Reach-Inv guard name n (later r (commits i t busy clock)) in
    record {
      seen = λ a h.
          let passed = validate-Passes _ _ (guard a) _ _ valid h in
          q.current a busy
            (subst (λ w. Passes (Z.shared.locks (guard a)) w (Z.handle i).start_time) q.me passed);
      held = λ a h. q.current a busy (inr h);
      only = q.untouched;
      result = λ a. rw (success) refl;
      clean = v2.common.clean;
    }
