-- ===== src/Allocators/Generic.antt =====
-- allocators/generic_allocator.h and its .include.c, with the clock of database.include/threads.c
-- that they are given: memory is freed when no running transaction can see it. An item is its
-- address and its time; what is freed is returned.
use hybrid_databases.Base.{
  ℕ, zero, suc, ◌+◌, ◌-◌, ◌^◌, ◌≡◌, ◌≢◌, ◌≤◌, ◌<◌, refl, arith, not, List, [], ◌∷◌, length, ltb,
  ◌==◌, ◌&&◌, if◌then◌else◌, get_or, All, Bool-cases, inl, inr,
}

-- The loop of `get_time` over the start times of the handles, and `get_time`
unfoldable pub oldest : List ℕ → ℕ → ℕ
oldest [] current = current
oldest (t ∷ ts) current = oldest ts (if not (t == 0) && ltb t current then t else current)

unfoldable pub get_time : List ℕ → ℕ
get_time starts = oldest starts (2 ^ 64 - 1)

-- `struct GenericAllocator`
pub record GenericAllocator : Type 0 where
  pub gc_threshold : ℕ
  pub counter : ℕ
  pub free_list : List (ℕ × ℕ)

-- `generic_allocator_init`
abbrev pub generic_allocator_init : ℕ → GenericAllocator
generic_allocator_init gc_threshold = record {
  gc_threshold = gc_threshold;
  counter = 0;
  free_list = [];
}

-- The loop of `generic_allocator_collect_garbage` over the list that was swapped out
unfoldable pub collect_loop : ℕ → List (ℕ × ℕ) → GenericAllocator → GenericAllocator × List (ℕ × ℕ)
collect_loop now [] A = (A, [])
collect_loop now ((p, t) ∷ items) A =
    if ltb now t
    then collect_loop now items (record A { free_list = (p, t) ∷ A.free_list })
    else (let (A1, freed) = collect_loop now items (record A { counter = A.counter - 1 }) in
        (A1, (p, t) ∷ freed))

-- `generic_allocator_collect_garbage`
unfoldable pub collect_garbage : List ℕ → GenericAllocator → GenericAllocator × List (ℕ × ℕ)
collect_garbage starts A = collect_loop (get_time starts) A.free_list (record A { free_list = [] })

-- `generic_allocator_free`
unfoldable pub generic_allocator_free :
    List ℕ → ℕ → ℕ → GenericAllocator → GenericAllocator × List (ℕ × ℕ)
generic_allocator_free starts p end_time A =
    if p == 0
    then (A, [])
    else (let A1 = record A { counter = A.counter + 1; free_list = (p, end_time) ∷ A.free_list } in
        if ltb A1.gc_threshold A1.counter then collect_garbage starts A1 else (A1, []))

-- How often an address is among items.
unfoldable pub among : ℕ → List (ℕ × ℕ) → ℕ
among p [] = 0
among p ((q, t) ∷ items) = (if q == p then 1 else 0) + among p items

-- What a collection at `now` leaves and frees.
pub record Collected (now : ℕ) (A A' : GenericAllocator) (freed : List (ℕ × ℕ)) : Type 0 where
  pub old : All (λ (i : ℕ × ℕ). i.1 ≤ now) freed
  pub fresh : All (λ (i : ℕ × ℕ). now < i.1) A'.free_list
  pub kept : (p : ℕ) → among p A.free_list ≡ among p freed + among p A'.free_list
  pub counted : A'.counter ≡ length A'.free_list

loop-Collected :
    (now : ℕ) (items : List (ℕ × ℕ)) (A : GenericAllocator)
    → All (λ (i : ℕ × ℕ). now < i.1) A.free_list
    → A.counter ≡ length items + length A.free_list
    → let (A', freed) = collect_loop now items A in
      All (λ (i : ℕ × ℕ). i.1 ≤ now) freed
      × All (λ (i : ℕ × ℕ). now < i.1) A'.free_list
      × ((p : ℕ) → among p items + among p A.free_list ≡ among p freed + among p A'.free_list)
      × (A'.counter ≡ length A'.free_list)
unfolding collect_loop among
loop-Collected now [] A f c = (tt, f, (λ p. refl), omega arith)
loop-Collected now ((p, t) ∷ items) A f c = elim (Bool-cases (ltb now t)) [
  | inl e ↦ rw e (
      let r =
        loop-Collected now items (record A { free_list = (p, t) ∷ A.free_list }) (ground arith, f)
          (omega arith) in
      (r.0, r.1, (λ q. omega (arith, r.2 q)), r.3))
  | inr e ↦ rw e (
      let r = loop-Collected now items (record A { counter = A.counter - 1 }) f (omega arith) in
      ((ground arith, r.0), r.1, (λ q. omega (arith, r.2 q)), r.3))
]

oldest-le : (ts : List ℕ) (current : ℕ) → oldest ts current ≤ current
unfolding oldest
oldest-le [] current = omega arith
oldest-le (t ∷ ts) current =
    ground (arith, oldest-le ts (if not (t == 0) && ltb t current then t else current))

oldest-le_start :
    (ts : List ℕ) (current i : ℕ) → get_or ts i 0 ≢ 0 → oldest ts current ≤ get_or ts i 0
unfolding oldest
oldest-le_start [] current i n = absurd (n refl)
oldest-le_start (t ∷ ts) current zero n =
    ground (arith, oldest-le ts (if not (t == 0) && ltb t current then t else current))
oldest-le_start (t ∷ ts) current (suc i) n = oldest-le_start ts _ i n

-- A collection frees exactly the items whose time is not above that of the clock, keeps the others
-- and counts them, and the clock is not above the start of any running transaction.
pub collect_garbage_lem :
    (starts : List ℕ) (A : GenericAllocator)
    → A.counter ≡ length A.free_list
    → Collected (get_time starts) A (collect_garbage starts A).0 (collect_garbage starts A).1
      × ((i : ℕ) → get_or starts i 0 ≢ 0 → get_time starts ≤ get_or starts i 0)
unfolding collect_garbage get_time
collect_garbage_lem starts A c =
    let r =
      loop-Collected (get_time starts) A.free_list (record A { free_list = [] }) tt (omega arith) in
    (
      record {
        old = r.0;
        fresh = r.1;
        kept = λ p. unfold among in omega (arith, r.2 p);
        counted = r.3;
      },
      λ i n. oldest-le_start starts (2 ^ 64 - 1) i n,
    )
