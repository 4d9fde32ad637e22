-- ===== src/Allocators/Cached.antt =====
-- allocators/simple_allocator.h: a cache with a limit.
use hybrid_databases.Base.{
  ℕ, ◌+◌, ◌-◌, ◌/◌, ◌≡◌, ◌≤◌, arith, List, [], ◌∷◌, length, ltb, if◌then◌else◌, Bool-cases, inl,
  inr,
}

-- `struct SimpleAllocator`: the cached objects, by their addresses
pub record Cache : Type 0 where
  pub gc_threshold : ℕ
  pub count : ℕ
  pub free_objs : List ℕ

-- `_simple_allocator_gc`, by recursion on the list that it pops from; what is freed is returned.
unfoldable pub simple_gc : ℕ → List ℕ → ℕ → (ℕ × List ℕ) × List ℕ
simple_gc threshold [] count = ((count, []), [])
simple_gc threshold (obj ∷ objs) count =
    let (left, freed) = simple_gc threshold objs (count - 1) in
    if ltb threshold count then (left, obj ∷ freed) else ((count, obj ∷ objs), [])

-- `simple_allocator_alloc`; `made` is the object that `xmalloc` and `init` make.
unfoldable pub simple_allocator_alloc : ℕ → Cache → ℕ × Cache
simple_allocator_alloc made A = elim A.free_objs [
  | [] ↦ (made, A)
  | obj ∷ objs ↦ (obj, record A { count = A.count - 1; free_objs = objs })
]

-- `simple_allocator_free`
unfoldable pub simple_allocator_free : ℕ → Cache → Cache × List ℕ
simple_allocator_free obj A =
    let count = A.count + 1 in
    let objs = obj ∷ A.free_objs in
    if ltb A.gc_threshold count
    then (let ((n, left), freed) = simple_gc (A.gc_threshold / 2) objs count in
        (record A { count = n; free_objs = left }, freed))
    else (record A { count = count; free_objs = objs }, [])

-- The counter agrees with the cache, which is within its limit.
pub record IsValid (A : Cache) : Type 0 where
  pub counted : A.count ≡ length A.free_objs
  pub limit : A.count ≤ A.gc_threshold

simple_gc_lem :
    (threshold : ℕ) (objs : List ℕ) (count : ℕ)
    → count ≡ length objs
    → let ((n, left), freed) = simple_gc threshold objs count in
      (n ≡ length left) × (n ≤ threshold) × (length freed + n ≡ count)
unfolding simple_gc
simple_gc_lem threshold [] count c = (c, omega arith, omega arith)
simple_gc_lem threshold (obj ∷ objs) count c = elim (Bool-cases (ltb threshold count)) [
  | inl e ↦ rw e (
      let r = simple_gc_lem threshold objs (count - 1) (omega arith) in
      (r.0, r.1, omega (arith, r.2)))
  | inr e ↦ rw e (c, ground arith, omega arith)
]

-- Freeing an object keeps the cache within its limit, and every object is cached or freed.
pub simple_allocator_free_lem :
    (obj : ℕ) (A : Cache)
    → IsValid A
    → IsValid (simple_allocator_free obj A).0
      × (length (simple_allocator_free obj A).1 + (simple_allocator_free obj A).0.count
          ≡ A.count + 1)
unfolding simple_allocator_free
simple_allocator_free_lem obj A v = elim (Bool-cases (ltb A.gc_threshold (A.count + 1))) [
  | inl e ↦ rw e (
      let r =
        simple_gc_lem (A.gc_threshold / 2) (obj ∷ A.free_objs) (A.count + 1)
          (omega (arith, v.counted)) in
      (record { counted = r.0; limit = omega (arith, r.1) }, r.2))
  | inr e ↦ rw e (record { counted = omega (arith, v.counted); limit = ground arith }, omega arith)
]
