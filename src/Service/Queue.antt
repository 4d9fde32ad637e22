-- ===== src/Service/Queue.antt =====
-- The output queue of a database: `output_queue_push` of database.include/transaction.c, the walk
-- over the queue in `service_thread` of database.include/threads.c, and the `sem_post` of
-- `database_close` in database.include/database.c, interleaved access by access. A pointer is a
-- number, 0 the null pointer.
pub mod Links
pub mod Invariant
pub mod Steps
pub mod Order
use hybrid_databases.Base.{
  ℕ, zero, suc, ◌+◌, ◌≡◌, ◌≢◌, ◌⊎◌, Bool, true, false, Option, none, some, List, [], ◌∷◌, ◌++◌,
  ◌==◌, if◌then◌else◌,
}

-- Whose the memory of a `struct OutputList` is: the allocator's, a caller's that fills it, ready
-- to be pushed (`O->next = 0` is done), or the queue's until the service thread frees it.
pub data Owner : Type 0 where
  allocator : Owner
  caller : Owner
  prepared : Owner
  in_queue : Owner

-- `D->mutex` with what its holder has done: locked, behind `*(D->tail) = O`, behind the other write
pub data Mutex : Type 0 where
  unlocked : Mutex
  linking : (job : ℕ) → Mutex
  linked : (job : ℕ) → Mutex
  leaving : Mutex

-- Where the service thread stands: before its first `sem_wait`, before `job = D->head`, with a job
-- before the next `sem_wait`, behind it, and behind the loop.
pub data Phase : Type 0 where
  starting : Phase
  at_head : Phase
  serving : Phase
  moving : Phase
  stopped : Phase

-- The memory and the variables. `tail` is `none` for `&D->head` and `some O` for `&O->next`;
-- `unposted` counts the pushes before their `sem_post`. `pushed` are the jobs in the order of the
-- writes that link them, `done` those that the service thread has handled and freed.
pub record Queue : Type 0 where
  pub next : ℕ → ℕ
  pub owner : ℕ → Owner
  pub head : ℕ
  pub tail : Option ℕ
  pub mutex : Mutex
  pub counter : ℕ
  pub unposted : ℕ
  pub closed : Bool
  pub phase : Phase
  pub job : ℕ
  pub done : List ℕ
  pub pushed : List ℕ

abbrev pub set_at {ℓ} : {A : Type ℓ} → ℕ → A → (ℕ → A) → ℕ → A
set_at i a f j = if j == i then a else f j

-- `D->head = 0; D->tail = &D->head`; the memory holds anything.
abbrev pub queue_init : (ℕ → ℕ) → Queue
queue_init memory = record {
  next = memory;
  owner = λ _. allocator;
  head = 0;
  tail = none;
  mutex = unlocked;
  counter = 0;
  unposted = 0;
  closed = false;
  phase = starting;
  job = 0;
  done = [];
  pushed = [];
}

abbrev pub head_behind : Option ℕ → ℕ → ℕ → ℕ
head_behind none o head = o
head_behind (some t) o head = head

abbrev pub next_behind : Option ℕ → ℕ → (ℕ → ℕ) → ℕ → ℕ
next_behind none o next = next
next_behind (some t) o next = set_at t o next

-- `*(D->tail) = O`
abbrev pub link_job : ℕ → Queue → Queue
link_job o Q = record Q {
  head = head_behind Q.tail o Q.head;
  next = next_behind Q.tail o Q.next;
  owner = set_at o in_queue Q.owner;
  mutex = linked o;
  pushed = Q.pushed ++ o ∷ [];
}

-- The condition of the loop
abbrev pub looping : ℕ → Phase
looping zero = stopped
looping (suc p) = serving

-- What `sem_wait` leads to; a wait of a running dump is a `sem_trywait` that succeeds.
abbrev pub behind_wait : Phase → Phase
behind_wait starting = at_head
behind_wait at_head = at_head
behind_wait serving = moving
behind_wait moving = moving
behind_wait stopped = stopped

-- `job_next = job->next`, the free and `job = job_next`
abbrev pub next_job : Queue → Queue
next_job Q = record Q {
  owner = set_at Q.job allocator Q.owner;
  job = Q.next Q.job;
  phase = looping (Q.next Q.job);
  done = Q.done ++ Q.job ∷ [];
}

-- One access of some thread. Memory that is the allocator's may change at any time. A push that
-- holds the lock already posts before the lock is released, others behind it. The database is
-- closed when no push is under way, and none follows.
pub data Step (Q : Queue) : Queue → Type 0 where
  change : (o v : ℕ) → Q.owner o ≡ allocator → Step Q (record Q { next = set_at o v Q.next })
  alloc :
      (o : ℕ)
      → o ≢ 0
      → Q.owner o ≡ allocator
      → Step Q (record Q { owner = set_at o caller Q.owner })
  prepare :
      (o : ℕ)
      → Q.owner o ≡ caller
      → Step Q (record Q { next = set_at o 0 Q.next; owner = set_at o prepared Q.owner })
  lock :
      (o : ℕ)
      → Q.owner o ≡ prepared
      → Q.mutex ≡ unlocked
      → Q.closed ≡ false
      → Step Q (record Q { mutex = linking o })
  push_link : (o : ℕ) → Q.mutex ≡ linking o → Step Q (link_job o Q)
  push_tail :
      (o : ℕ)
      → Q.mutex ≡ linked o
      → Step Q (record Q { tail = some o; mutex = leaving; unposted = Q.unposted + 1 })
  unlock : Q.mutex ≡ leaving → Step Q (record Q { mutex = unlocked })
  post_push :
      (n : ℕ) → Q.unposted ≡ n + 1 → Step Q (record Q { unposted = n; counter = Q.counter + 1 })
  wait :
      (n : ℕ)
      → (Q.phase ≡ starting) ⊎ (Q.phase ≡ serving)
      → Q.counter ≡ n + 1
      → Step Q (record Q { counter = n; phase = behind_wait Q.phase })
  read_head : Q.phase ≡ at_head → Step Q (record Q { job = Q.head; phase = looping Q.head })
  read_next : Q.phase ≡ moving → Step Q (next_job Q)
  close :
      Q.mutex ≡ unlocked
      → Q.unposted ≡ 0
      → Q.closed ≡ false
      → Step Q (record Q { closed = true; counter = Q.counter + 1 })

pub data Reach : Queue → Type 0 where
  start : (memory : ℕ → ℕ) → Reach (queue_init memory)
  later : {Q R : Queue} → Reach Q → Step Q R → Reach R
