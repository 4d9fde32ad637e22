-- ===== src/Service/Queue/Invariant.antt =====
-- What holds of the output queue of database.include/transaction.c and threads.c in every state: the
-- jobs that hang together, the tail, and the count of the semaphore.
use hybrid_databases.Base.{
  ℕ, zero, suc, ◌+◌, ◌≡◌, ◌≢◌, refl, arith, Bool, true, false, Option, some, List, [], ◌∷◌, ◌++◌,
  length,
}
use hybrid_databases.Service.Queue.{
  prepared, Mutex, unlocked, linking, linked, leaving, Phase, starting, at_head, serving, moving,
  stopped, Queue, queue_init, head_behind, looping, behind_wait,
}
use hybrid_databases.Service.Queue.Links.{Chain, end_cell, Linked, last_job}

-- Where the jobs in the queue begin: at the head, or from then on at the job in service.
abbrev pub front : Phase → ℕ → ℕ → ℕ
front starting head job = head
front at_head head job = head
front serving head job = job
front moving head job = job
front stopped head job = job

-- What `D->tail` is or is about to be
abbrev pub tail_soon : Mutex → Option ℕ → Option ℕ
tail_soon unlocked tail = tail
tail_soon (linking o) tail = tail
tail_soon (linked o) tail = some o
tail_soon leaving tail = tail

-- A linked job whose push has not come to its count
abbrev pub unfinished : Mutex → ℕ
unfinished unlocked = 0
unfinished (linking o) = 0
unfinished (linked o) = 1
unfinished leaving = 0

-- The waits that the service thread has done, by the jobs that it has freed
abbrev pub waits : Phase → ℕ → ℕ
waits starting done = 0
waits at_head done = 1
waits serving done = done + 1
waits moving done = done + 2
waits stopped done = done + 1

abbrev pub closing : Bool → ℕ
closing true = 1
closing false = 0

abbrev pub Placed : Phase → List ℕ → ℕ → Type 0
Placed starting done job = done ≡ []
Placed at_head done job = done ≡ []
Placed serving done job = job ≢ 0
Placed moving done job = job ≢ 0
Placed stopped done job = job ≡ 0

pub record Inv (Q : Queue) (jobs : List ℕ) : Type 0 where
  pub memory : Linked Q.next Q.owner (front Q.phase Q.head Q.job) jobs
  pub tail : Q.phase ≢ stopped → tail_soon Q.mutex Q.tail ≡ end_cell jobs
  pub pusher : (o : ℕ) → Q.mutex ≡ linking o → Q.owner o ≡ prepared
  pub quiet : Q.closed ≡ true → (Q.mutex ≡ unlocked) × (Q.unposted ≡ 0)
  pub ended : Q.phase ≡ stopped → Q.closed ≡ true
  pub contents : Q.done ++ jobs ≡ Q.pushed
  pub counts :
      Q.counter + Q.unposted + unfinished Q.mutex + waits Q.phase (length Q.done)
      ≡ length Q.done + length jobs + closing Q.closed
  pub placed : Placed Q.phase Q.done Q.job

pub init-Inv : (memory : ℕ → ℕ) → Inv (queue_init memory) []
init-Inv memory = record {
  memory = record {
    chain = refl;
    distinct = tt;
    queued = λ o. refl;
    ready = λ o e. ground arith;
    null = refl;
  };
  tail = λ e. refl;
  pusher = λ o e. ground arith;
  quiet = λ e. ground arith;
  ended = λ e. ground arith;
  contents = refl;
  counts = refl;
  placed = refl;
}

some_job :
    (next : ℕ → ℕ) (p o : ℕ) (jobs : List ℕ)
    → Chain next p jobs
    → p ≢ 0
    → p ≡ head_behind (end_cell jobs) o p
some_job next p o [] c n = ground arith
some_job next p o (x ∷ jobs) c n = let (t, e) = last_job x jobs in rw (e)

-- The write of a push goes to the head only when the service thread has no job yet.
pub front-link_job :
    (next : ℕ → ℕ) (done : List ℕ) (head job o : ℕ) (phase : Phase) (jobs : List ℕ)
    → Chain next (front phase head job) jobs
    → Placed phase done job
    → phase ≢ stopped
    → front phase (head_behind (end_cell jobs) o head) job
      ≡ head_behind (end_cell jobs) o (front phase head job)
front-link_job next done head job o starting jobs c h n = refl
front-link_job next done head job o at_head jobs c h n = refl
front-link_job next done head job o serving jobs c h n = some_job next job o jobs c h
front-link_job next done head job o moving jobs c h n = some_job next job o jobs c h
front-link_job next done head job o stopped jobs c h n = ground (arith, n refl)

pub front-behind_wait :
    (phase : Phase) (head job : ℕ) → front (behind_wait phase) head job ≡ front phase head job
front-behind_wait starting head job = refl
front-behind_wait at_head head job = refl
front-behind_wait serving head job = refl
front-behind_wait moving head job = refl
front-behind_wait stopped head job = refl

pub Placed-behind_wait :
    (phase : Phase) (done : List ℕ) (job : ℕ)
    → Placed phase done job
    → Placed (behind_wait phase) done job
Placed-behind_wait starting done job h = h
Placed-behind_wait at_head done job h = h
Placed-behind_wait serving done job h = h
Placed-behind_wait moving done job h = h
Placed-behind_wait stopped done job h = h

pub behind_wait-stopped : (phase : Phase) → behind_wait phase ≡ stopped → phase ≡ stopped
behind_wait-stopped phase e = ground arith

pub front-looping : (head p : ℕ) → front (looping p) head p ≡ p
front-looping head zero = refl
front-looping head (suc p) = refl

pub Placed-looping : (done : List ℕ) (p : ℕ) → Placed (looping p) done p
Placed-looping done zero = refl
Placed-looping done (suc p) = λ e. omega arith

pub waits-looping : (p n : ℕ) → waits (looping p) n ≡ n + 1
waits-looping zero n = refl
waits-looping (suc p) n = refl

pub looping-zero : (p : ℕ) → looping p ≡ stopped → p ≡ 0
looping-zero zero e = refl
looping-zero (suc p) e = ground arith
