-- ===== src/Service/Queue/Links.antt =====
-- The jobs that hang together in the memory of the output queue, and what a push and the freeing of
-- the first job do to them.
use hybrid_databases.Base.{
  ℕ, ◌≡◌, ◌≢◌, refl, arith, Bool, true, false, Option, none, some, List, [], ◌∷◌, ◌++◌, length,
}
use hybrid_databases.Base.Members.{has, Distinct, has-append, Distinct-append}
use hybrid_databases.Service.Queue.{
  Owner, allocator, caller, prepared, in_queue, set_at, next_behind, head_behind,
}

-- From `p` the pointers lead through `jobs` to the null pointer.
abbrev pub Chain : (ℕ → ℕ) → ℕ → List ℕ → Type 0
Chain next p [] = p ≡ 0
Chain next p (o ∷ jobs) = (p ≡ o) × (o ≢ 0) × Chain next (next o) jobs

-- The cell behind the last job
abbrev pub end_cell : List ℕ → Option ℕ
end_cell [] = none
end_cell (o ∷ []) = some o
end_cell (o ∷ p ∷ jobs) = end_cell (p ∷ jobs)

abbrev pub is_queued : Owner → Bool
is_queued allocator = false
is_queued caller = false
is_queued prepared = false
is_queued in_queue = true

pub record Linked (next : ℕ → ℕ) (owner : ℕ → Owner) (p : ℕ) (jobs : List ℕ) : Type 0 where
  pub chain : Chain next p jobs
  pub distinct : Distinct jobs
  pub queued : (o : ℕ) → is_queued (owner o) ≡ has o jobs
  pub ready : (o : ℕ) → owner o ≡ prepared → next o ≡ 0
  pub null : owner 0 ≡ allocator

Chain-same :
    {next next2 : ℕ → ℕ} (p : ℕ) (jobs : List ℕ)
    → ((o : ℕ) → has o jobs ≡ true → next2 o ≡ next o)
    → Chain next p jobs
    → Chain next2 p jobs
Chain-same p [] same c = c
Chain-same {next} {next2} p (o ∷ jobs) same (e, n, c) =
    let e2 : next2 o ≡ next o = same o (ground arith) in
    (e, n, rw (e2) (Chain-same (next o) jobs (λ x h. same x (ground arith)) c))

pub end_cell-has : (jobs : List ℕ) (t : ℕ) → end_cell jobs ≡ some t → has t jobs ≡ true
end_cell-has [] t e = ground arith
end_cell-has (p ∷ []) t e = ground arith
end_cell-has (p ∷ q ∷ jobs) t e = ground (arith, end_cell-has (q ∷ jobs) t e)

pub end_cell-append : (o : ℕ) (jobs : List ℕ) → end_cell (jobs ++ o ∷ []) ≡ some o
end_cell-append o [] = refl
end_cell-append o (p ∷ []) = refl
end_cell-append o (p ∷ q ∷ jobs) = end_cell-append o (q ∷ jobs)

Chain-append :
    (next : ℕ → ℕ) {o t : ℕ} (p : ℕ) (jobs : List ℕ)
    → Chain next p jobs
    → Distinct jobs
    → end_cell jobs ≡ some t
    → o ≢ 0
    → next o ≡ 0
    → has o jobs ≡ false
    → Chain (set_at t o next) p (jobs ++ o ∷ [])
Chain-append next p [] c d e n z out = ground arith
Chain-append next p (x ∷ []) (c, c1, c2) d e n z out = (c, c1, (ground arith, n, ground arith))
Chain-append next {o} {t} p (x ∷ y ∷ jobs) (c, c1, c2) d e n z out =
    let h : has t (y ∷ jobs) ≡ true = end_cell-has (y ∷ jobs) t e in
    let e2 : set_at t o next x ≡ next x = ground (arith, d.0) in
    (c, c1, rw (e2) (Chain-append next (next x) (y ∷ jobs) c2 d.1 e n z (ground arith)))

module _ {next : ℕ → ℕ} {owner : ℕ → Owner} {p : ℕ} {jobs : List ℕ} (v : Linked next owner p jobs)
    (o : ℕ) where
  pub change-Linked : (x : ℕ) → owner o ≡ allocator → Linked (set_at o x next) owner p jobs
  change-Linked x a = record {
    chain = Chain-same p jobs (λ y h. ground (arith, v.queued o)) v.chain;
    distinct = v.distinct;
    queued = v.queued;
    ready = λ y h. ground (arith, v.ready y);
    null = v.null;
  }

  pub alloc-Linked : o ≢ 0 → owner o ≡ allocator → Linked next (set_at o caller owner) p jobs
  alloc-Linked n a = record {
    chain = v.chain;
    distinct = v.distinct;
    queued = λ y. ground (arith, v.queued y);
    ready = λ y h. ground (arith, v.ready y);
    null = ground (arith, v.null);
  }

  pub prepare-Linked : owner o ≡ caller → Linked (set_at o 0 next) (set_at o prepared owner) p jobs
  prepare-Linked a = record {
    chain = Chain-same p jobs (λ y h. ground (arith, v.queued o)) v.chain;
    distinct = v.distinct;
    queued = λ y. ground (arith, v.queued y);
    ready = λ y h. ground (arith, v.ready y);
    null = ground (arith, v.null);
  }

pub last_job : (o : ℕ) (jobs : List ℕ) → (t : ℕ) × (end_cell (o ∷ jobs) ≡ some t)
last_job o [] = (o, refl)
last_job o (p ∷ jobs) = last_job p jobs

-- A push of a prepared job links it behind the others.
pub link_job-Linked :
    {next : ℕ → ℕ} {owner : ℕ → Owner} {p : ℕ} (jobs : List ℕ) (o : ℕ)
    → Linked next owner p jobs
    → owner o ≡ prepared
    → Linked
        (next_behind (end_cell jobs) o next)
        (set_at o in_queue owner)
        (head_behind (end_cell jobs) o p)
        (jobs ++ o ∷ [])
link_job-Linked {next} {owner} {p} [] o v a = record {
  chain = (refl, ground (arith, v.null), v.ready o a);
  distinct = (refl, tt);
  queued = λ y. ground (arith, v.queued y);
  ready = λ y h. ground (arith, v.ready y);
  null = ground (arith, v.null);
}
link_job-Linked {next} {owner} {p} (x ∷ jobs) o v a =
    let (t, e) = last_job x jobs in
    let h : has t (x ∷ jobs) ≡ true = end_cell-has (x ∷ jobs) t e in
    let out : has o (x ∷ jobs) ≡ false = ground (arith, v.queued o) in
    let q : is_queued (owner t) ≡ true = ground (arith, v.queued t) in
    rw (e) (record {
      chain =
          Chain-append next p (x ∷ jobs) v.chain v.distinct e (ground (arith, v.null)) (v.ready o a)
            out;
      distinct = Distinct-append o (x ∷ jobs) out v.distinct;
      queued = λ y. ground (arith, v.queued y, has-append y (x ∷ jobs) (o ∷ []));
      ready = λ y h. ground (arith, v.ready y);
      null = ground (arith, v.null);
    })

-- The first job can be freed: the others hang together behind it.
pub free-Linked :
    (next : ℕ → ℕ) (owner : ℕ → Owner) {p : ℕ} (o : ℕ) (jobs : List ℕ)
    → Linked next owner p (o ∷ jobs)
    → Linked next (set_at p allocator owner) (next p) jobs
free-Linked next owner {p} o jobs v = rw (v.chain.0) (record {
  chain = v.chain.2;
  distinct = v.distinct.1;
  queued = λ y. ground (arith, v.queued y, v.distinct.0);
  ready = λ y h. ground (arith, v.ready y);
  null = ground (arith, v.null);
})

-- No job hangs on the null pointer.
pub Chain-null : (next : ℕ → ℕ) (jobs : List ℕ) → Chain next 0 jobs → jobs ≡ []
Chain-null next [] c = refl
Chain-null next (o ∷ jobs) c = ground (arith, c.0, c.1)

pub end_cell-behind :
    (next : ℕ → ℕ) (p o : ℕ) (jobs : List ℕ)
    → Chain next p jobs
    → p ≢ 0
    → end_cell (o ∷ jobs) ≡ end_cell jobs
end_cell-behind next p o [] c n = ground arith
end_cell-behind next p o (q ∷ jobs) c n = refl

pub Chain-has :
    (next : ℕ → ℕ) (p : ℕ) (jobs : List ℕ) → Chain next p jobs → p ≢ 0 → has p jobs ≡ true
Chain-has next p [] c n = ground (arith, n c)
Chain-has next p (o ∷ jobs) c n = ground (arith, c.0)

pub Chain-only :
    (next : ℕ → ℕ) (p : ℕ) (jobs : List ℕ) → Chain next p jobs → length jobs ≡ 1 → jobs ≡ p ∷ []
Chain-only next p [] c n = ground arith
Chain-only next p (o ∷ []) c n = rw (c.0)
Chain-only next p (o ∷ q ∷ jobs) c n = ground (arith, n)

pub Chain-nonempty :
    (next : ℕ → ℕ) (p : ℕ) (jobs : List ℕ) → Chain next p jobs → p ≢ 0 → length jobs ≢ 0
Chain-nonempty next p [] c n = ground (arith, n c)
Chain-nonempty next p (o ∷ jobs) c n = λ e. omega arith
