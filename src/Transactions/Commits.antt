-- ===== src/Transactions/Commits.antt =====
-- How main transactions are committed, or fail to be.
use hybrid_databases.Base.{
  ℕ, ◌≡◌, ◌≢◌, refl, sym, ◌∙◌, arith, true, false, Option, none, some, List, [], ◌∷◌, ◌++◌,
  if◌then◌else◌, Bool-cases, inl, inr, subst,
}
use hybrid_databases.Transactions.Memory.{LogItem}
use hybrid_databases.Transactions.State.{
  State, Job, sync_me, CommitType, Semaphore, write_finished, tr_begin,
}
use hybrid_databases.Transactions.Commit.{
  Answer, tr_abort_main, tr_unlock, handle_cleanup, later, tr_validate, effective, is_sync,
  job_lock, commit_job, tr_commit, tr_commit_main,
}
use hybrid_databases.Transactions.Runs.{Runs, Extends}
use hybrid_databases.Transactions.Locking.{Owned, Owned-same}
use hybrid_databases.Transactions.Outcomes.{
  IsIdle, Ended, unlock_all-Owned, abort-Ended, main-Extends, main-Owned,
}

-- What `_tr_commit_main` answers: on success the memory stays, on failure it is that of the
-- beginning.
pub record Answered (S S1 : State) (A : Answer) : Type 0 where
  pub ended : Ended S1 A.state (λ a. if A.success then S1.memory a else S.memory a)
  pub refused : A.success ≡ false → tr_validate S1 ≡ false

beside :
    {S S1 : State} (time : ℕ) (queue : List Job)
    → Extends S S1
    → Extends S (record S1 { time = time; queue = queue })
beside time queue E = record {
  items = E.items;
  log = E.log;
  undoes = E.undoes;
  more = E.more;
  read_set = E.read_set;
  transactions = E.transactions;
  start_time = E.start_time;
  me = E.me;
}

finished :
    (S1 : State) (ver : ℕ) (queue : List Job)
    → Owned S1
    → Ended S1
        (record (handle_cleanup (tr_unlock ver (record S1 { time = ver }))) { queue = queue })
        S1.memory
unfolding tr_unlock handle_cleanup
finished S1 ver queue o = record {
  bytes = λ a. refl;
  idle = record {
    start_time = refl;
    read_set = refl;
    transactions = refl;
    log = refl;
    commit_type = refl;
    acquired_locks = refl;
  };
  unlocked = λ l. unlock_all-Owned S1 ver l o;
}

module _ (t : CommitType) (S1 : State) where
  abbrev pub kind : CommitType
  kind = effective t S1.commit_type

  abbrev pub ending : State
  ending = record S1 { time = later S1.time }

  abbrev pub quiet : State
  quiet = handle_cleanup (tr_unlock (later S1.time) ending)

  -- The four ends of a main commit.
  pub commit_read_only :
      S1.log ≡ []
      → is_sync kind ≡ false
      → tr_commit_main t S1 ≡ record { success = true; waits = none; state = quiet }
  unfolding tr_commit_main
  commit_read_only e d = rw e (rw d refl)

  pub commit_read_only_sync :
      S1.log ≡ []
      → is_sync kind ≡ true
      → tr_commit_main t S1 ≡ record {
        success = true;
        waits = some write_finished;
        state = record quiet {
          queue =
              quiet.queue
              ++ (record { type = sync_me; lock = write_finished; end_time = 0; log = [] } ∷ []);
        };
      }
  unfolding tr_commit_main
  commit_read_only_sync e d = rw e (rw d refl)

  module _ {item : LogItem} {log : List LogItem} (e : S1.log ≡ item ∷ log) where
    pub commit_validated :
        tr_validate S1 ≡ true
        → tr_commit_main t S1 ≡ record {
          success = true;
          waits = some (job_lock kind);
          state = handle_cleanup (
              tr_unlock (later S1.time) (record ending {
                queue = S1.queue ++ (commit_job kind (later S1.time) S1.log ∷ []);
              }));
        }
    unfolding tr_commit_main
    commit_validated v = rw e (rw v refl)

    pub commit_refused :
        tr_validate S1 ≡ false
        → tr_commit_main t S1 ≡ record {
          success = false;
          waits = none;
          state =
              tr_abort_main
                (record ending { queue = S1.queue ++ (commit_job kind (later S1.time) [] ∷ []) });
        }
    unfolding tr_commit_main
    commit_refused v = rw e (rw v refl)

module _ {S : State} (t : CommitType) (S1 : State) (E : Extends S S1) (n : S.log ≡ [])
    (o : Owned S1) where
  succeeded :
      {w : Option Semaphore} {S2 : State}
      → Ended S1 S2 S1.memory
      → Answered S S1 (record { success = true; waits = w; state = S2 })
  succeeded F = record {
    ended = record { bytes = F.bytes; idle = F.idle; unlocked = F.unlocked };
    refused = λ h. cc;
  }

  commit-Answered : Answered S S1 (tr_commit_main t S1)
  unfolding tr_unlock handle_cleanup
  commit-Answered = go S1.log refl
    where
      go : (log : List LogItem) → S1.log ≡ log → Answered S S1 (tr_commit_main t S1)
      go [] e = elim (Bool-cases (is_sync (effective t S1.commit_type))) [
        | inl d ↦
            subst (λ A. Answered S S1 A) (sym (commit_read_only_sync t S1 e d))
              (succeeded (finished S1 (later S1.time) _ o))
        | inr d ↦
            subst (λ A. Answered S S1 A) (sym (commit_read_only t S1 e d))
              (succeeded (finished S1 (later S1.time) S1.queue o))
      ]
      go (item ∷ log) e = elim (Bool-cases (tr_validate S1)) [
        | inl v ↦
            subst (λ A. Answered S S1 A) (sym (commit_validated t S1 e v))
              (succeeded (finished S1 (later S1.time) _ o))
        | inr v ↦
            subst (λ A. Answered S S1 A) (sym (commit_refused t S1 e v))
              (let f =
                  abort-Ended
                    (record S1 {
                      time = later S1.time;
                      queue =
                          S1.queue
                          ++ (commit_job (effective t S1.commit_type) (later S1.time) [] ∷ []);
                    })
                    (beside (later S1.time) _ E) n (Owned-same S1 _ refl refl refl o) in
                record {
                  ended = record { bytes = f.bytes; idle = f.idle; unlocked = f.unlocked };
                  refused = λ h. v;
                })
      ]

tr_commit-top :
    (t : CommitType) (S : State) → S.transactions ≡ [] → tr_commit t S ≡ tr_commit_main t S
unfolding tr_commit
tr_commit-top t S e = rw e refl

module _ {S S1 : State} (idle : IsIdle S) (b : S.time ≢ 0) (r : Runs (tr_begin S) S1) where
  pub tr_commit-main :
      (t : CommitType) → ((l : ℕ) → S.locks l ≢ S.me) → Answered S S1 (tr_commit t S1)
  tr_commit-main t free =
      let E = main-Extends idle b r in
      let A = commit-Answered t S1 E idle.log (main-Owned idle b r free) in
      subst (λ x. Answered S S1 x) (sym (tr_commit-top t S1 (E.transactions ∙ idle.transactions)))
        (record { ended = A.ended; refused = A.refused })

  -- After that no lock is held by the handle.
  pub all_released :
      (t : CommitType)
      → ((l : ℕ) → S.locks l ≢ S.me)
      → (tr_commit t S1).state.time ≢ S1.me
      → (l : ℕ) → (tr_commit t S1).state.locks l ≢ S1.me
  all_released t free d l e = ground (arith, (tr_commit-main t free).ended.unlocked l)
