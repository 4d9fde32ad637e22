-- ===== src/Transactions/Sharing/Ends.antt =====
-- What the ends of a main transaction of database.include/transaction.c do to the database that
-- other handles share.
use hybrid_databases.Base.{
  ℕ, ◌+◌, ◌%◌, ◌^◌, ◌≡◌, ◌≢◌, ◌<◌, inl, inr, refl, sym, ap, ◌∙◌, subst, arith, Bool, true, false,
  List, [], ◌∷◌, ◌++◌, ◌==◌, if◌then◌else◌, Bool-cases,
}
use native.Mathlib.Decide.{ℕ_discrete}
use hybrid_databases.Transactions.Memory.{Bytes, LogItem}
use hybrid_databases.Transactions.State.{CommitType, State, Job, handle_rollback}
use hybrid_databases.Transactions.Commit.{
  tr_abort_main, tr_commit_main, tr_unlock, handle_cleanup, later, tr_validate, is_sync, commit_job,
  effective, Answer,
}
use hybrid_databases.Transactions.Locking.{Owned, Owned-same}
use hybrid_databases.Transactions.Outcomes.{unlock_all-Owned}
use hybrid_databases.Transactions.Commits.{
  commit_read_only, commit_read_only_sync, commit_validated, commit_refused,
}
use hybrid_databases.Transactions.Sharing.Undoing.{undone, Untouched, undo_to-undone}
use hybrid_databases.Transactions.Sharing.Frames.{Part, Shared}
use hybrid_databases.Transactions.Sharing.Moves.{Kept}

-- The handle has left its transaction with `memory`, and its locks have the time as version.
pub record Finished (S S2 : State) (memory : Bytes) : Type 0 where
  pub me : S2.me ≡ S.me
  pub start_time : S2.start_time ≡ 0
  pub log : S2.log ≡ []
  pub bytes : (a : ℕ) → S2.memory a ≡ memory a
  pub after : S.time < S2.time
  pub odd : S2.time % 2 ≡ 1
  pub unlocked : (l : ℕ) → S2.locks l ≡ (if S.locks l == S.me then S2.time else S.locks l)

module _ (S : State) (o : Owned S) (clock : S.time % 2 ≡ 1) where
  pub abort-Finished : S.time + 2 < 2 ^ 64 → Finished S (tr_abort_main S) (undone S.log S.memory)
  unfolding tr_abort_main tr_unlock handle_rollback handle_cleanup later
  abort-Finished h = record {
    me = refl;
    start_time = refl;
    log = refl;
    bytes = λ a. ap (λ (m : Bytes). m a) (undo_to-undone S.time S.log S.memory S.freed).1;
    after = omega arith;
    odd = omega arith;
    unlocked = λ l. unlock_all-Owned S ((S.time + 2) % 2 ^ 64) l o;
  }

  pub quiet-Finished :
      (queue : List Job)
      → S.time + 2 < 2 ^ 64
      → Finished S
          (record (handle_cleanup (tr_unlock (later S.time) (record S { time = later S.time }))) {
            queue = queue;
          })
          S.memory
  unfolding tr_unlock handle_cleanup later
  quiet-Finished queue h = record {
    me = refl;
    start_time = refl;
    log = refl;
    bytes = λ a. refl;
    after = omega arith;
    odd = omega arith;
    unlocked = λ l. unlock_all-Owned S ((S.time + 2) % 2 ^ 64) l o;
  }

-- The memory that a commit leaves, by its answer
abbrev pub outcome : Bool → State → Bytes
outcome true S = S.memory
outcome false S = undone S.log S.memory

abbrev at_later : List Job → State → State
at_later queue S = record S { time = later S.time; queue = queue }

later-Finished :
    (S : State) (queue : List Job) (S2 : State) (m : Bytes)
    → S.time + 4 < 2 ^ 64
    → Finished (at_later queue S) S2 m
    → Finished S S2 m
unfolding later
later-Finished S queue S2 m h f = record {
  me = f.me;
  start_time = f.start_time;
  log = f.log;
  bytes = f.bytes;
  after = omega (arith, f.after);
  odd = f.odd;
  unlocked = f.unlocked;
}

-- What a commit leaves, whatever it answers
abbrev Leaves : State → Answer → Type 0
Leaves S A = Finished S A.state (outcome A.success S)

commit-Leaves :
    (t : CommitType) (S : State) (log : List LogItem)
    → Owned S
    → S.time % 2 ≡ 1
    → S.time + 4 < 2 ^ 64
    → S.log ≡ log
    → Leaves S (tr_commit_main t S)
unfolding tr_unlock handle_cleanup
commit-Leaves t S [] o c h e = elim (Bool-cases (is_sync (effective t S.commit_type))) [
  | inl d ↦
      subst (Leaves S) (sym (commit_read_only_sync t S e d)) (quiet-Finished S o c _ (omega arith))
  | inr d ↦
      subst (Leaves S) (sym (commit_read_only t S e d)) (quiet-Finished S o c S.queue (omega arith))
]
commit-Leaves t S (item ∷ log) o c h e = elim (Bool-cases (tr_validate S)) [
  | inl v ↦ subst (Leaves S) (sym (commit_validated t S e v)) (quiet-Finished S o c _ (omega arith))
  | inr v ↦
      let queue = S.queue ++ (commit_job (effective t S.commit_type) (later S.time) [] ∷ []) in
      let S1 = at_later queue S in
      subst (Leaves S) (sym (commit_refused t S e v)) (
        later-Finished S queue (tr_abort_main S1) (undone S.log S.memory) h (
          abort-Finished S1 (Owned-same S S1 refl refl refl o) (unfold later in omega arith)
            (unfold later in omega arith)))
]

pub commit-Finished :
    (t : CommitType) (S : State)
    → Owned S
    → S.time % 2 ≡ 1
    → S.time + 4 < 2 ^ 64
    → Leaves S (tr_commit_main t S)
commit-Finished t S o c h = commit-Leaves t S S.log o c h refl

-- A success with a log was validated.
pub commit-validated :
    (t : CommitType) (S : State) (log : List LogItem)
    → S.log ≡ log
    → log ≢ []
    → (tr_commit_main t S).success ≡ true
    → tr_validate S ≡ true
commit-validated t S [] e n h = ground (arith, n refl)
commit-validated t S (item ∷ log) e n h = elim (Bool-cases (tr_validate S)) [
  | inl v ↦ v
  | inr v ↦
      let answer = ap (λ (A : Answer). A.success) (commit_refused t S e v) in ground (arith, answer)
]

module _ (guard : ℕ → ℕ) {who : ℕ} {S : State} {committed snapshot : Bytes} (even : who % 2 ≡ 0)
    (s : Shared guard S committed) (p : Part guard who S committed snapshot) where
  pub finish-Kept :
      (S2 : State) (m committed2 : Bytes)
      → Finished S S2 m
      → ((a : ℕ) → S.locks (guard a) ≡ who → m a ≡ committed2 a)
      → ((a : ℕ) → S.locks (guard a) ≢ who → (m a ≡ S.memory a) × (committed2 a ≡ committed a))
      → Kept guard who S S2 committed committed2 snapshot
  unfolding Owned
  finish-Kept S2 m committed2 f own rest = record {
    common = record {
      clock = f.odd;
      old = λ l h. ground (arith, f.unlocked l, s.old l, f.after);
      clean = λ a h. f.bytes a ∙ elim (ℕ_discrete (S.locks (guard a)) who) [
        | yes e ↦ own a e
        | no n ↦
            (rest a n).0 ∙ s.clean a (ground (arith, f.unlocked (guard a), p.me)) ∙ sym (rest a n).1
      ];
    };
    mine = record {
      me = f.me ∙ p.me;
      dirty = λ a h. ground (arith, f.unlocked (guard a), f.odd, p.me);
      untouched = λ a h. subst (λ l. Untouched l a) (sym f.log) tt;
      current = λ a c h. ground (arith, f.start_time);
      started = ground (arith, f.start_time);
      idle = λ z. (f.log, λ l h. ground (arith, f.unlocked l, f.odd, p.me));
      owned = λ l h. ground (arith, f.unlocked l, f.odd, p.me, f.me);
    };
    moves = record {
      time = ground (arith, f.after);
      locks = λ l. elim (ℕ_discrete (S.locks l) who) [
        | yes e ↦
            let new : S2.locks l ≡ S2.time = ground (arith, f.unlocked l, p.me) in
            inr (inr (e, ground (arith, f.odd), ground (arith, f.after)))
        | no n ↦ inl (ground (arith, f.unlocked l, p.me))
      ];
      memory = λ a h h2. f.bytes a ∙ (rest a h).0;
      settled = λ a h. (rest a h).1;
    };
  }
