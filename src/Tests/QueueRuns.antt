-- ===== src/Tests/QueueRuns.antt =====
-- A run of the output queue of database.include/transaction.c and threads.c.
use hybrid_databases.Base.{ℕ, ◌≡◌, inl, inr, refl, arith, List, [], ◌∷◌}
use hybrid_databases.Service.Queue.{
  Queue, alloc, prepare, lock, push_link, push_tail, unlock, post_push, wait, read_head, read_next,
  Reach, start, later,
}
use hybrid_databases.Service.Queue.Order.{IsOrdered, output_queue-IsOrdered}

-- The job 8 is pushed and taken; while it is in service 9 is pushed, which posts before it releases
-- the lock, and the service thread frees 8 and goes on with 9 while the lock is held.
abbrev run : (Q : Queue) × Reach Q
run =
    let r =
      later (later (later (start (λ o. 7)) (alloc 8 (λ e. omega arith) refl)) (prepare 8 refl))
        (alloc 9 (λ e. omega arith) refl) in
    let r1 =
      later (later (later r (lock 8 refl refl refl)) (push_link 8 refl)) (push_tail 8 refl) in
    let r2 = later (later (later r1 (post_push 0 refl)) (wait 0 (inl refl) refl)) (unlock refl) in
    let r3 = later (later (later r2 (read_head refl)) (prepare 9 refl)) (lock 9 refl refl refl) in
    let r4 = later (later r3 (push_link 9 refl)) (push_tail 9 refl) in
    let r5 =
      later (later (later r4 (post_push 0 refl)) (wait 0 (inr refl) refl)) (read_next refl) in
    (_, r5)

run_lem : (run.0.pushed ≡ 8 ∷ 9 ∷ []) × (run.0.done ≡ 8 ∷ []) × (run.0.job ≡ 9)
run_lem = (refl, refl, refl)

output_queue-IsOrdered_example : (jobs : List ℕ) × IsOrdered run.0 jobs
output_queue-IsOrdered_example = output_queue-IsOrdered run.1
