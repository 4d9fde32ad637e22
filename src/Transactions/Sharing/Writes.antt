-- ===== src/Transactions/Sharing/Writes.antt =====
-- Writes under a lock (database.include/macros.h) keep what holds of the database and of their own
-- handle.
use hybrid_databases.Base.{
  ℕ, ◌+◌, ◌-◌, ◌%◌, ◌≡◌, ◌≢◌, ◌≤◌, inl, inr, refl, sym, ap, ◌∙◌, subst, arith, true, List, ◌∷◌,
  length, ◌==◌, if◌then◌else◌, Bool-cases,
}
use native.Mathlib.Decide.{ℕ_discrete, dec_lt}
use hybrid_databases.Utils.Lock.{l_lock, lock_fails}
use hybrid_databases.Transactions.Memory.{Bytes, write_bytes, read_bytes, LogItem}
use hybrid_databases.Transactions.State.{State, util_lock}
use hybrid_databases.Transactions.Locking.{Owned}
use hybrid_databases.Transactions.Sharing.{Guarded}
use hybrid_databases.Transactions.Sharing.Undoing.{
  undone, Outside, Untouched, write_bytes-Outside, undone-Untouched, undone-write,
}
use hybrid_databases.Transactions.Sharing.Frames.{Passes, Part, Shared, Moved}
use hybrid_databases.Transactions.Sharing.Moves.{Kept}

-- A lock that was taken, or held before
pub record Locked (lock : ℕ) (S S1 : State) : Type 0 where
  pub locks : ℕ → ℕ
  pub acquired_locks : List ℕ
  pub state : S1 ≡ record S { locks = locks; acquired_locks = acquired_locks }
  pub taken : (l : ℕ) → locks l ≡ (if l == lock then S.me else S.locks l)
  pub passed : Passes (S.locks lock) S.me S.start_time

pub util_lock-Locked :
    (lock : ℕ) (S : State) → (util_lock lock S).0 ≡ true → Locked lock S (util_lock lock S).1
unfolding util_lock l_lock lock_fails
util_lock-Locked lock S h = elim (Bool-cases (lock_fails (S.locks lock) S.me S.start_time)) [
  | inl e ↦ ground arith
  | inr e ↦ rw e (elim (Bool-cases (S.locks lock == S.me)) [
    | inl d ↦ rw d (record {
      locks = λ l. if l == lock then S.me else S.locks l;
      acquired_locks = S.acquired_locks;
      state = refl;
      taken = λ l. refl;
      passed = ground arith;
    })
    | inr d ↦ rw d (record {
      locks = λ l. if l == lock then S.me else S.locks l;
      acquired_locks = lock ∷ S.acquired_locks;
      state = refl;
      taken = λ l. refl;
      passed = ground arith;
    })
  ])
]

module _ (guard : ℕ → ℕ) where
  within : (q a : ℕ) → q ≤ a → a ≡ q + (a - q)
  within q a h = omega arith

  not-Guarded : (lock q n a : ℕ) → Guarded guard q n lock → guard a ≢ lock → Outside q n a
  not-Guarded lock q n a g h = elim (dec_lt a q) [
    | yes l ↦ inl l
    | no l ↦ elim (dec_lt a (q + n)) [
      | yes k ↦ absurd (h (ap guard (within q a (omega arith)) ∙ g (a - q) (omega arith)))
      | no k ↦ inr (omega arith)
    ]
  ]

  module _ {who : ℕ} {S : State} {committed snapshot : Bytes} (even : who % 2 ≡ 0)
      (s : Shared guard S committed) (p : Part guard who S committed snapshot) where
    module _ (lock : ℕ) (locks : ℕ → ℕ) (passed : Passes (S.locks lock) who S.start_time)
        (taken : (l : ℕ) → locks l ≡ (if l == lock then who else S.locks l)) where
      -- Also where the lock is new, the log leads to the committed memory.
      held-undone : (a : ℕ) → locks (guard a) ≡ who → undone S.log S.memory a ≡ committed a
      held-undone a h = elim (ℕ_discrete (S.locks (guard a)) who) [
        | yes e ↦ p.dirty a e
        | no n ↦
            undone-Untouched S.log S.memory a (p.untouched a n)
            ∙ s.clean a (ground (arith, taken (guard a)))
      ]

      Passes-before :
          (a : ℕ)
          → Passes (locks (guard a)) who S.start_time
          → Passes (S.locks (guard a)) who S.start_time
      Passes-before a h = elim (ℕ_discrete (guard a) lock) [
        | yes e ↦ subst (λ l. Passes (S.locks l) who S.start_time) (sym e) passed
        | no n ↦
            let e : locks (guard a) ≡ S.locks (guard a) = ground (arith, taken (guard a)) in
            subst (λ v. Passes v who S.start_time) e h
      ]

      taken-Moved : (l : ℕ) → Moved who S.time (S.locks l) (locks l)
      taken-Moved l = elim (ℕ_discrete l lock) [
        | yes e ↦
            let new : locks l ≡ who = ground (arith, taken l) in
            elim (subst (λ x. Passes (S.locks x) who S.start_time) (sym e) passed) [
              | inl o ↦ inr (inl (o.0, new))
              | inr w ↦ inl (new ∙ sym w)
            ]
        | no n ↦ inl (ground (arith, taken l))
      ]

    -- A write under a lock that was taken
    pub write-Kept :
        (lock q : ℕ) (new : List ℕ) (locks : ℕ → ℕ) (acquired_locks : List ℕ) (item : LogItem)
        → S.start_time ≢ 0
        → Passes (S.locks lock) who S.start_time
        → ((l : ℕ) → locks l ≡ (if l == lock then who else S.locks l))
        → Owned (record S { locks = locks; acquired_locks = acquired_locks })
        → Guarded guard q (length new) lock
        → ((m : Bytes)
            → undone (item ∷ S.log) m
              ≡ undone S.log (write_bytes q (read_bytes q (length new) S.memory) m))
        → ((a : ℕ) → Outside q (length new) a → Untouched S.log a → Untouched (item ∷ S.log) a)
        → Kept guard who S
            (record S {
              locks = locks;
              acquired_locks = acquired_locks;
              memory = write_bytes q new S.memory;
              log = item ∷ S.log;
            })
            committed
            committed
            snapshot
    unfolding Owned
    write-Kept lock q new locks acquired_locks item b passed taken owned g u t =
        let outside = λ (a : ℕ) (h : locks (guard a) ≢ who).
          not-Guarded lock q (length new) a g (λ e. h (taken (guard a) ∙ ground arith)) in
        let same = λ (a : ℕ) (h : locks (guard a) ≢ who).
          write_bytes-Outside new q S.memory a (outside a h) in
        let before = λ (a : ℕ) (h : locks (guard a) ≢ who).
          let k = taken (guard a) in
          let r : locks (guard a) ≡ S.locks (guard a) = ground arith in r in
        record {
          common = record {
            clock = s.clock;
            old = λ l h. ground (arith, taken l, s.old l);
            clean = λ a h.
                let n : locks (guard a) ≢ who = ground arith in
                same a n ∙ s.clean a (ground (arith, before a n));
          };
          mine = record {
            me = p.me;
            dirty = λ a h.
                ap (λ (m : Bytes). m a) (u (write_bytes q new S.memory))
                ∙ undone-write S.log new q S.memory a
                ∙ held-undone lock locks passed taken a h;
            untouched = λ a h. t a (outside a h) (p.untouched a (λ e. h (before a h ∙ e)));
            current = λ a c h. p.current a c (Passes-before lock locks passed taken a h);
            started = p.started;
            idle = λ z. ground arith;
            owned = owned;
          };
          moves = record {
            time = omega arith;
            locks = λ l. taken-Moved lock locks passed taken l;
            memory = λ a h h2. same a h2;
            settled = λ a h. refl;
          };
        }
