-- ===== src/Transactions/Semaphores.antt =====
-- The semaphores of a handle: what the service thread (database.include/threads.c) posts for the
-- jobs that commits have queued, and what the commits wait for.
use hybrid_databases.Base.{ℕ, ◌+◌, Option, none, some, List, [], ◌∷◌}
use hybrid_databases.Transactions.State.{
  State, Job, Semaphore, write_finished, pending_transactions,
}

unfoldable pub same : Semaphore → Semaphore → ℕ
same write_finished write_finished = 1
same write_finished pending_transactions = 0
same pending_transactions write_finished = 0
same pending_transactions pending_transactions = 1

-- How often `service_thread` does `sem_post(job->lock)` on a semaphore for the jobs of a queue.
unfoldable pub posts : Semaphore → List Job → ℕ
posts s [] = 0
posts s (job ∷ jobs) = same s job.lock + posts s jobs

-- How often a commit does `sem_wait` on it.
unfoldable pub waited : Semaphore → Option Semaphore → ℕ
waited s none = 0
waited s (some w) = same s w
