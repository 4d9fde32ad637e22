-- ===== src/Service/Queue/Steps.antt =====
-- Each access to the output queue of database.include/transaction.c and threads.c keeps the
-- invariant.
use hybrid_databases.Base.{
  ℕ, ◌+◌, ◌≡◌, ◌≢◌, ◌⊎◌, inl, inr, refl, subst, arith, true, false, some, List, [], ◌∷◌, ◌++◌,
  length, length-append, append_assoc,
}
use hybrid_databases.Service.Queue.{
  Owner, prepared, unlocked, linking, linked, leaving, starting, at_head, serving, moving, stopped,
  Queue, link_job, looping, next_job, behind_wait,
}
use hybrid_databases.Service.Queue.Links.{
  Chain, end_cell, Linked, end_cell-append, link_job-Linked, free-Linked, Chain-null,
  end_cell-behind,
}
use hybrid_databases.Service.Queue.Invariant.{
  front, Placed, Inv, front-link_job, front-behind_wait, Placed-behind_wait, behind_wait-stopped,
  front-looping, Placed-looping, waits-looping, looping-zero,
}

module _ {Q : Queue} {jobs : List ℕ} (v : Inv Q jobs) where
  pub memory-Inv :
      {next : ℕ → ℕ} {owner : ℕ → Owner}
      → Linked next owner (front Q.phase Q.head Q.job) jobs
      → ((o : ℕ) → Q.mutex ≡ linking o → owner o ≡ prepared)
      → Inv (record Q { next = next; owner = owner }) jobs
  memory-Inv m p = record {
    memory = m;
    tail = v.tail;
    pusher = p;
    quiet = v.quiet;
    ended = v.ended;
    contents = v.contents;
    counts = v.counts;
    placed = v.placed;
  }

  pub lock-Inv :
      (o : ℕ)
      → Q.owner o ≡ prepared
      → Q.mutex ≡ unlocked
      → Q.closed ≡ false
      → Inv (record Q { mutex = linking o }) jobs
  lock-Inv o a m c = record {
    memory = v.memory;
    tail = λ e. ground (arith, v.tail e);
    pusher = λ p e. ground arith;
    quiet = λ e. ground arith;
    ended = v.ended;
    contents = v.contents;
    counts = ground (arith, v.counts);
    placed = v.placed;
  }

  pub push_link-Inv : (o : ℕ) → Q.mutex ≡ linking o → Inv (link_job o Q) (jobs ++ o ∷ [])
  push_link-Inv o m =
      let running : Q.phase ≢ stopped = λ e. ground (arith, v.ended e, v.quiet) in
      let t : Q.tail ≡ end_cell jobs = ground (arith, v.tail running) in
      record {
        memory =
            rw
              (
                t,
                front-link_job Q.next Q.done Q.head Q.job o Q.phase jobs v.memory.chain v.placed
                    running,
              )
              (link_job-Linked jobs o v.memory (v.pusher o m));
        tail = λ e. rw (end_cell-append o jobs);
        pusher = λ p e. ground arith;
        quiet = λ e. ground (arith, v.quiet e);
        ended = v.ended;
        contents = rw (← append_assoc, v.contents);
        counts = ground (arith, v.counts, length-append jobs (o ∷ []));
        placed = v.placed;
      }

  pub push_tail-Inv :
      (o : ℕ)
      → Q.mutex ≡ linked o
      → Inv (record Q { tail = some o; mutex = leaving; unposted = Q.unposted + 1 }) jobs
  push_tail-Inv o m = record {
    memory = v.memory;
    tail = λ e. ground (arith, v.tail e);
    pusher = λ p e. ground arith;
    quiet = λ e. ground (arith, v.quiet e);
    ended = v.ended;
    contents = v.contents;
    counts = ground (arith, v.counts);
    placed = v.placed;
  }

  pub unlock-Inv : Q.mutex ≡ leaving → Inv (record Q { mutex = unlocked }) jobs
  unlock-Inv m = record {
    memory = v.memory;
    tail = λ e. ground (arith, v.tail e);
    pusher = λ p e. ground arith;
    quiet = λ e. ground (arith, v.quiet e);
    ended = v.ended;
    contents = v.contents;
    counts = ground (arith, v.counts);
    placed = v.placed;
  }

  pub post-Inv :
      (n : ℕ) → Q.unposted ≡ n + 1 → Inv (record Q { unposted = n; counter = Q.counter + 1 }) jobs
  post-Inv n u = record {
    memory = v.memory;
    tail = v.tail;
    pusher = v.pusher;
    quiet = λ e. ground (arith, v.quiet e);
    ended = v.ended;
    contents = v.contents;
    counts = ground (arith, v.counts);
    placed = v.placed;
  }

  pub close-Inv :
      Q.mutex ≡ unlocked
      → Q.unposted ≡ 0
      → Q.closed ≡ false
      → Inv (record Q { closed = true; counter = Q.counter + 1 }) jobs
  close-Inv m u c = record {
    memory = v.memory;
    tail = v.tail;
    pusher = v.pusher;
    quiet = λ e. (m, u);
    ended = λ e. refl;
    contents = v.contents;
    counts = ground (arith, v.counts);
    placed = v.placed;
  }

  pub wait-Inv :
      (n : ℕ)
      → (Q.phase ≡ starting) ⊎ (Q.phase ≡ serving)
      → Q.counter ≡ n + 1
      → Inv (record Q { counter = n; phase = behind_wait Q.phase }) jobs
  wait-Inv n p c = record {
    memory = rw (front-behind_wait Q.phase Q.head Q.job) v.memory;
    tail = λ e. v.tail (λ s. e (rw (s)));
    pusher = v.pusher;
    quiet = v.quiet;
    ended = λ e. v.ended (behind_wait-stopped Q.phase e);
    contents = v.contents;
    counts = elim p [ inl e ↦ ground (arith, v.counts) | inr e ↦ ground (arith, v.counts) ];
    placed = Placed-behind_wait Q.phase Q.done Q.job v.placed;
  }

  pub read_head-Inv :
      Q.phase ≡ at_head → Inv (record Q { job = Q.head; phase = looping Q.head }) jobs
  read_head-Inv p =
      let m = subst (λ s. Linked Q.next Q.owner (front s Q.head Q.job) jobs) p v.memory in
      let none_done : Q.done ≡ [] = subst (λ s. Placed s Q.done Q.job) p v.placed in
      record {
        memory = rw (front-looping Q.head Q.head) m;
        tail = λ e. v.tail (λ s. ground arith);
        pusher = v.pusher;
        quiet = v.quiet;
        ended = λ e.
            let none_left =
              Chain-null Q.next jobs
                (subst (λ h. Chain Q.next h jobs) (looping-zero Q.head e) m.chain) in
            ground (arith, v.counts);
        contents = v.contents;
        counts = ground (arith, v.counts, waits-looping Q.head (length Q.done));
        placed = Placed-looping Q.done Q.head;
      }

-- The job behind the first
abbrev pub rest_of : List ℕ → List ℕ
rest_of [] = []
rest_of (o ∷ jobs) = jobs

pub read_next-Inv :
    {Q : Queue} (jobs : List ℕ) → Inv Q jobs → Q.phase ≡ moving → Inv (next_job Q) (rest_of jobs)
read_next-Inv {Q} [] v p =
    let m = subst (λ s. Linked Q.next Q.owner (front s Q.head Q.job) []) p v.memory in
    let busy : Q.job ≢ 0 = subst (λ s. Placed s Q.done Q.job) p v.placed in
    ground (arith, busy m.chain)
read_next-Inv {Q} (o ∷ jobs) v p =
    let m = subst (λ s. Linked Q.next Q.owner (front s Q.head Q.job) (o ∷ jobs)) p v.memory in
    let m2 = free-Linked Q.next Q.owner o jobs m in
    record {
      memory = rw (front-looping Q.head (Q.next Q.job)) m2;
      tail = λ e.
          let some_left : Q.next Q.job ≢ 0 = λ z. e (rw (z)) in
          rw (← end_cell-behind Q.next (Q.next Q.job) o jobs m2.chain some_left)
            (v.tail (λ s. ground arith));
      pusher = λ x e. ground (arith, v.pusher x e, v.memory.queued x, m.chain.0);
      quiet = v.quiet;
      ended = λ e.
          let none_left =
            Chain-null Q.next jobs
              (subst (λ h. Chain Q.next h jobs) (looping-zero (Q.next Q.job) e) m2.chain) in
          ground (arith, v.counts);
      contents = rw (append_assoc, m.chain.0) v.contents;
      counts = ground (
        arith,
        v.counts,
        waits-looping (Q.next Q.job) (length (Q.done ++ Q.job ∷ [])),
        length-append Q.done (Q.job ∷ []),
      );
      placed = Placed-looping (Q.done ++ Q.job ∷ []) (Q.next Q.job);
    }
