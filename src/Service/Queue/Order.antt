-- ===== src/Service/Queue/Order.antt =====
-- The order of the jobs in the output queue of database.include/transaction.c and threads.c.
use hybrid_databases.Base.{
  ℕ, ◌≡◌, ◌≢◌, ◌⊎◌, inl, inr, subst, arith, true, false, some, List, [], ◌∷◌, ◌++◌, length,
  append-nil,
}
use hybrid_databases.Service.Queue.{
  linking, Phase, serving, moving, stopped, Queue, Step, change, alloc, prepare, lock, push_link,
  push_tail, unlock, post_push, wait, read_head, read_next, close, Reach, start, later,
}
use hybrid_databases.Service.Queue.Links.{
  Chain, end_cell, is_queued, Chain-null, Chain-has, Chain-only, Chain-nonempty, end_cell-has,
  change-Linked, alloc-Linked, prepare-Linked,
}
use hybrid_databases.Base.Members.{has, Distinct}
use hybrid_databases.Service.Queue.Invariant.{front, unfinished, Placed, Inv, init-Inv}
use hybrid_databases.Service.Queue.Steps.{
  memory-Inv, lock-Inv, push_link-Inv, push_tail-Inv, unlock-Inv, post-Inv, close-Inv, wait-Inv,
  read_head-Inv, read_next-Inv, rest_of,
}

Step-Inv : {Q R : Queue} {jobs : List ℕ} → Step Q R → Inv Q jobs → (rest : List ℕ) × Inv R rest
Step-Inv {Q} {jobs} (change o x a) v = (jobs, memory-Inv v (change-Linked v.memory o x a) v.pusher)
Step-Inv {Q} {jobs} (alloc o n a) v =
    (jobs, memory-Inv v (alloc-Linked v.memory o n a) (λ p e. ground (arith, v.pusher p e)))
Step-Inv {Q} {jobs} (prepare o a) v =
    (jobs, memory-Inv v (prepare-Linked v.memory o a) (λ p e. ground (arith, v.pusher p e)))
Step-Inv {Q} {jobs} (lock o a m c) v = (jobs, lock-Inv v o a m c)
Step-Inv {Q} {jobs} (push_link o m) v = (jobs ++ o ∷ [], push_link-Inv v o m)
Step-Inv {Q} {jobs} (push_tail o m) v = (jobs, push_tail-Inv v o m)
Step-Inv {Q} {jobs} (unlock m) v = (jobs, unlock-Inv v m)
Step-Inv {Q} {jobs} (post_push n u) v = (jobs, post-Inv v n u)
Step-Inv {Q} {jobs} (wait n p c) v = (jobs, wait-Inv v n p c)
Step-Inv {Q} {jobs} (read_head p) v = (jobs, read_head-Inv v p)
Step-Inv {Q} {jobs} (read_next p) v = (rest_of jobs, read_next-Inv jobs v p)
Step-Inv {Q} {jobs} (close m u c) v = (jobs, close-Inv v m u c)

Reach-Inv : {Q : Queue} → Reach Q → (jobs : List ℕ) × Inv Q jobs
Reach-Inv (start memory) = ([], init-Inv memory)
Reach-Inv (later r s) = let (jobs, v) = Reach-Inv r in Step-Inv s v

-- What an output queue promises, with the jobs that hang together in it
pub record IsOrdered (Q : Queue) (jobs : List ℕ) : Type 0 where
  pub linked_jobs : Chain Q.next (front Q.phase Q.head Q.job) jobs
  pub in_order : Q.done ++ jobs ≡ Q.pushed
  pub once : Distinct jobs
  pub allocated : (o : ℕ) → is_queued (Q.owner o) ≡ has o jobs
  pub tail_allocated :
      (o t : ℕ) → Q.mutex ≡ linking o → Q.tail ≡ some t → is_queued (Q.owner t) ≡ true
  pub in_service : (Q.phase ≡ serving) ⊎ (Q.phase ≡ moving) → is_queued (Q.owner Q.job) ≡ true
  pub idle :
      Q.phase ≡ serving
      → Q.counter ≡ 0
      → Q.unposted ≡ 0
      → unfinished Q.mutex ≡ 0
      → (jobs ≡ Q.job ∷ []) × (Q.closed ≡ false)
  pub complete : Q.phase ≡ stopped → (Q.closed ≡ true) × (Q.done ≡ Q.pushed)

module _ {Q : Queue} {jobs : List ℕ} (v : Inv Q jobs) where
  -- The chain as the service thread sees it in a phase
  in_phase : {phase : Phase} → Q.phase ≡ phase → Chain Q.next (front phase Q.head Q.job) jobs
  in_phase e = subst (λ s. Chain Q.next (front s Q.head Q.job) jobs) e v.memory.chain

  phase-Placed : {phase : Phase} → Q.phase ≡ phase → Placed phase Q.done Q.job
  phase-Placed e = subst (λ s. Placed s Q.done Q.job) e v.placed

  tail-has : (o t : ℕ) → Q.mutex ≡ linking o → Q.tail ≡ some t → is_queued (Q.owner t) ≡ true
  tail-has o t m e =
      let running : Q.phase ≢ stopped = λ s. ground (arith, v.ended s, v.quiet) in
      let at_end : end_cell jobs ≡ some t = ground (arith, v.tail running) in
      ground (arith, v.memory.queued t, end_cell-has jobs t at_end)

  job-has : (Q.phase ≡ serving) ⊎ (Q.phase ≡ moving) → is_queued (Q.owner Q.job) ≡ true
  job-has (inl e) =
      ground
        (arith, v.memory.queued Q.job, Chain-has Q.next Q.job jobs (in_phase e) (phase-Placed e))
  job-has (inr e) =
      ground
        (arith, v.memory.queued Q.job, Chain-has Q.next Q.job jobs (in_phase e) (phase-Placed e))

  idle_lem :
      Q.phase ≡ serving
      → Q.counter ≡ 0
      → Q.unposted ≡ 0
      → unfinished Q.mutex ≡ 0
      → (jobs ≡ Q.job ∷ []) × (Q.closed ≡ false)
  idle_lem e c u m =
      let busy : Q.job ≢ 0 = phase-Placed e in
      let some_jobs : length jobs ≢ 0 = Chain-nonempty Q.next Q.job jobs (in_phase e) busy in
      (
        Chain-only Q.next Q.job jobs (in_phase e) (ground (arith, v.counts)),
        ground (arith, v.counts),
      )

  complete_lem : Q.phase ≡ stopped → (Q.closed ≡ true) × (Q.done ≡ Q.pushed)
  complete_lem e =
      let at_null = subst (λ h. Chain Q.next h jobs) (phase-Placed e) (in_phase e) in
      let none_left = Chain-null Q.next jobs at_null in
      (v.ended e, rw (← v.contents, none_left, append-nil))

-- In every state that the pushes and the service thread reach, in whatever order their accesses
-- come: the service thread has freed jobs in the order in which they were linked, and exactly the
-- others hang together in the memory, each once, in that order; this memory, and no other, is the
-- queue's, so that the service thread reads a job and a push writes behind one before it is freed.
-- If the thread waits for the semaphore with a job, and no push is between its link and its post,
-- that job is the last one and the database is not closed. If the thread has left the loop, the
-- database was closed and every job that was pushed has been handled and freed.
pub output_queue-IsOrdered : {Q : Queue} → Reach Q → (jobs : List ℕ) × IsOrdered Q jobs
output_queue-IsOrdered {Q} r =
    let (jobs, v) = Reach-Inv r in
    (
      jobs,
      record {
        linked_jobs = v.memory.chain;
        in_order = v.contents;
        once = v.memory.distinct;
        allocated = v.memory.queued;
        tail_allocated = tail-has v;
        in_service = job-has v;
        idle = idle_lem v;
        complete = complete_lem v;
      },
    )
