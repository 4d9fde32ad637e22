-- ===== src/Allocators/Versioned.antt =====
-- allocators/vpage_allocator.h and its .include.c: pages that are freed by their time. A page is
-- its address and its timestamp; the pages given to `page_free` are returned.
use hybrid_databases.Base.{
  ℕ, ◌+◌, ◌-◌, ◌≡◌, ◌<◌, refl, ap, arith, false, List, [], ◌∷◌, length, ltb, ◌==◌, if◌then◌else◌,
  Bool-cases, inl, inr,
}

-- `struct VPageAllocator`
pub record VPageAllocator : Type 0 where
  pub gc_threshold : ℕ
  pub free_pages_count : ℕ
  pub free_pages : List (ℕ × ℕ)

-- The second loop of `_vpage_allocator_gc`, over the list that was swapped out
unfoldable pub complicated_loop : ℕ → List (ℕ × ℕ) → VPageAllocator → VPageAllocator × List (ℕ × ℕ)
complicated_loop time [] A = (A, [])
complicated_loop time ((p, t) ∷ pages) A =
    if ltb time t
    then complicated_loop time pages (record A { free_pages = (p, t) ∷ A.free_pages })
    else (let (A1, freed) =
          complicated_loop time pages (record A { free_pages_count = A.free_pages_count - 1 }) in
        (A1, (p, t) ∷ freed))

-- `_vpage_allocator_gc`, whose first loop takes the pages from the list `free_pages`
unfoldable pub gc_loop : ℕ → List (ℕ × ℕ) → VPageAllocator → VPageAllocator × List (ℕ × ℕ)
gc_loop time [] A = (record A { free_pages = [] }, [])
gc_loop time ((p, t) ∷ pages) A =
    let A1 = record A { free_pages_count = A.free_pages_count - 1 } in
    let (A2, freed) = gc_loop time pages A1 in
    if A.free_pages_count == 0
    then (record A { free_pages = (p, t) ∷ pages }, [])
    else (if ltb time t
        then complicated_loop time pages (record A1 { free_pages = (p, t) ∷ [] })
        else (A2, (p, t) ∷ freed))

unfoldable pub vpage_allocator_gc : ℕ → VPageAllocator → VPageAllocator × List (ℕ × ℕ)
vpage_allocator_gc time A = gc_loop time A.free_pages A

-- `vpage_allocator_free`, for the time that `get_time` returns
unfoldable pub vpage_allocator_free : ℕ → ℕ → ℕ → VPageAllocator → VPageAllocator × List (ℕ × ℕ)
vpage_allocator_free now page time A =
    let A1 = record A {
      free_pages_count = A.free_pages_count + 1;
      free_pages = (page, time) ∷ A.free_pages;
    } in
    if ltb A1.gc_threshold A1.free_pages_count then vpage_allocator_gc now A1 else (A1, [])

-- The pages that are old enough
pub due : ℕ → List (ℕ × ℕ) → List (ℕ × ℕ)
due time [] = []
due time ((p, t) ∷ pages) = if ltb time t then due time pages else (p, t) ∷ due time pages

-- The pages that are not, the last one first, in front of `kept`
pub waiting_onto : ℕ → List (ℕ × ℕ) → List (ℕ × ℕ) → List (ℕ × ℕ)
waiting_onto time [] kept = kept
waiting_onto time ((p, t) ∷ pages) kept =
    if ltb time t then waiting_onto time pages ((p, t) ∷ kept) else waiting_onto time pages kept

complicated_loop_lem :
    (time : ℕ) (pages : List (ℕ × ℕ)) (A : VPageAllocator)
    → A.free_pages_count + 1 ≡ length pages + length A.free_pages
    → 0 < length A.free_pages
    → let (A', freed) = complicated_loop time pages A in
      (freed ≡ due time pages)
      × (A'.free_pages ≡ waiting_onto time pages A.free_pages)
      × (A'.free_pages_count + 1 ≡ length A'.free_pages)
      × (A'.gc_threshold ≡ A.gc_threshold)
unfolding complicated_loop due waiting_onto
complicated_loop_lem time [] A c h = (refl, refl, omega arith, refl)
complicated_loop_lem time ((p, t) ∷ pages) A c h = elim (Bool-cases (ltb time t)) [
  | inl e ↦ rw e (
      complicated_loop_lem time pages (record A { free_pages = (p, t) ∷ A.free_pages })
        (omega arith) (omega arith))
  | inr e ↦ rw e (
      let r =
        complicated_loop_lem time pages (record A { free_pages_count = A.free_pages_count - 1 })
          (omega arith) h in
      (ap (λ (l : List (ℕ × ℕ)). (p, t) ∷ l) r.0, r.1, r.2, r.3))
]

-- When the counter agrees with the list, a collection frees exactly the pages that are old enough,
-- each once and in the order of the list, and keeps exactly the others, in reversed order; but when
-- it keeps one, the counter is one less than their number. The threshold stays.
pub gc_loop_lem :
    (time : ℕ) (pages : List (ℕ × ℕ)) (A : VPageAllocator)
    → A.free_pages_count ≡ length pages
    → let (A', freed) = gc_loop time pages A in
      (freed ≡ due time pages)
      × (A'.free_pages ≡ waiting_onto time pages [])
      × (A'.free_pages_count ≡ length A'.free_pages - 1)
      × (A'.gc_threshold ≡ A.gc_threshold)
unfolding gc_loop due waiting_onto
gc_loop_lem time [] A c = (refl, refl, omega arith, refl)
gc_loop_lem time ((p, t) ∷ pages) A c =
    let A1 : VPageAllocator = record A { free_pages_count = A.free_pages_count - 1 } in
    let z : (A.free_pages_count == 0) ≡ false = ground arith in
    rw z (elim (Bool-cases (ltb time t)) [
      | inl e ↦ rw e (
          let r =
            complicated_loop_lem time pages (record A1 { free_pages = (p, t) ∷ [] }) (omega arith)
              (omega arith) in
          (r.0, r.1, omega (arith, r.2), r.3))
      | inr e ↦ rw e (
          let r = gc_loop_lem time pages A1 (omega arith) in
          (ap (λ (l : List (ℕ × ℕ)). (p, t) ∷ l) r.0, r.1, r.2, r.3))
    ])
