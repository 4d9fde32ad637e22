-- ===== src/Allocators/Pages/Blocks.antt =====
-- What allocations and frees of allocators/page_allocator.h do to the pages.
use hybrid_databases.Base.{
  ℕ, zero, suc, ◌+◌, ◌-◌, ◌*◌, ◌/◌, ◌^◌, ◌≡◌, ◌≤◌, ◌<◌, refl, sym, ap, ◌∙◌, arith, List, [], ◌∷◌,
  ◌++◌, length, ltb, false, Bool-cases, inl, inr,
}
use hybrid_databases.Allocators.Pages.{
  PageAllocator, page_size, get_page, unmap_pages, page_allocator_collect_garbage,
  page_allocator_free, mapped_length, free_rest, alloc_pages, page_allocator_alloc,
}

-- The counter agrees with the cache, which is within its limit.
pub record IsValid (A : PageAllocator) : Type 0 where
  pub counted : A.free_pages_counter ≡ length A.free_pages
  pub limit : A.free_pages_counter ≤ A.gc_threshold

-- The pages of a block behind its first one, `n` of them, the last one first
abbrev pub pages_of : ℕ → ℕ → List ℕ
pages_of block zero = []
pages_of block (suc n) = (block + suc n * page_size) ∷ pages_of block n

unmap_pages_lem :
    (threshold : ℕ) (pages : List ℕ) (A : PageAllocator)
    → A.free_pages ≡ pages
    → A.free_pages_counter ≡ length pages
    → let (left, unmapped) = unmap_pages threshold pages A in
      (left.free_pages_counter ≡ length left.free_pages)
      × (left.free_pages_counter ≤ threshold)
      × (left.gc_threshold ≡ A.gc_threshold)
      × (unmapped ++ left.free_pages ≡ pages)
unfolding unmap_pages
unmap_pages_lem threshold [] A p c = (rw (p) c, omega arith, refl, rw (p))
unmap_pages_lem threshold (page ∷ pages) A p c =
    elim (Bool-cases (ltb threshold A.free_pages_counter)) [
      | inl e ↦ rw e (
          let A1 = record A { free_pages_counter = A.free_pages_counter - 1; free_pages = pages } in
          let r = unmap_pages_lem threshold pages A1 refl (omega arith) in
          (r.0, r.1, r.2, ap (λ (l : List ℕ). page ∷ l) r.3))
      | inr e ↦ rw e (rw (p) c, ground arith, refl, rw (p))
    ]

-- A page that the cache has room for is kept.
free_small :
    (page : ℕ) (A : PageAllocator)
    → ltb A.gc_threshold (A.free_pages_counter + 1) ≡ false
    → page_allocator_free page A ≡ (
      record A { free_pages_counter = A.free_pages_counter + 1; free_pages = page ∷ A.free_pages },
      [],
    )
unfolding page_allocator_free
free_small page A t = rw t refl

free_rest_lem :
    (n j k block : ℕ) (A : PageAllocator)
    → n + j ≡ k
    → A.free_pages ≡ pages_of block j
    → A.free_pages_counter ≡ j
    → k ≤ A.gc_threshold
    → free_rest n (j + 1) block A
      ≡ (record A { free_pages_counter = k; free_pages = pages_of block k }, [])
unfolding free_rest
free_rest_lem zero j k block A e p c h = let e2 : k ≡ j = omega arith in rw (e2, ← p, ← c) refl
free_rest_lem (suc n) j k block A e p c h =
    let t : ltb A.gc_threshold (A.free_pages_counter + 1) ≡ false = ground arith in
    let A1 : PageAllocator = record A {
      free_pages_counter = A.free_pages_counter + 1;
      free_pages = (block + (j + 1) * page_size) ∷ A.free_pages;
    } in
    let first : page_allocator_free (block + (j + 1) * page_size) A ≡ (A1, []) = free_small _ A t in
    let d : j + 1 ≡ suc j = omega arith in
    let r = free_rest_lem n (j + 1) k block A1 (omega arith) (rw (p, d) refl) (ground arith) h in
    rw (first) (rw (r) refl)

page_allocator_free_lem :
    (page : ℕ) (A : PageAllocator)
    → IsValid A
    → let (A1, unmapped) = page_allocator_free page A in
      IsValid A1 × (unmapped ++ A1.free_pages ≡ page ∷ A.free_pages)
unfolding page_allocator_free page_allocator_collect_garbage
page_allocator_free_lem page A v =
    elim (Bool-cases (ltb A.gc_threshold (A.free_pages_counter + 1))) [
      | inl e ↦ rw e (
          let A1 : PageAllocator = record A {
            free_pages_counter = A.free_pages_counter + 1;
            free_pages = page ∷ A.free_pages;
          } in
          let r =
            unmap_pages_lem (A.gc_threshold / 2) (page ∷ A.free_pages) A1 refl
              (omega (arith, v.counted)) in
          (record { counted = r.0; limit = omega (arith, r.1, r.2) }, r.3))
      | inr e ↦ rw e (record { counted = omega (arith, v.counted); limit = ground arith }, refl)
    ]

-- What an allocation does: it takes the top page of the cache, or, when that is empty, the first
-- page of a block whose other pages it caches, and the block is as long as they are.
pub data Allocates (block : ℕ) (A : PageAllocator) : ℕ × (PageAllocator × List ℕ) → Type 0 where
  cached :
      (page : ℕ) (pages : List ℕ)
      → A.free_pages ≡ page ∷ pages
      → Allocates block A
          (page, (record A { free_pages_counter = length pages; free_pages = pages }, []))
  mapped :
      A.free_pages ≡ []
      → A.gc_threshold / 2 * page_size ≤ mapped_length A.gc_threshold
      → Allocates block A (
        block,
        (
          record A {
            free_pages_counter = A.gc_threshold / 2 - 1;
            free_pages = pages_of block (A.gc_threshold / 2 - 1);
          },
          [],
        ),
      )

-- The block is as long as the pages that are taken from it.
fits : (t : ℕ) → 2 ≤ t → t < 2 ^ 32 → t / 2 * page_size ≤ mapped_length t
unfolding mapped_length
fits t h l = ground arith

length-pages_of : (block n : ℕ) → length (pages_of block n) ≡ n
length-pages_of block zero = refl
length-pages_of block (suc n) = rw (length-pages_of block n) refl

alloc_empty :
    (block : ℕ) (A : PageAllocator)
    → A.free_pages ≡ []
    → page_allocator_alloc block A ≡ (block, free_rest (A.gc_threshold / 2 - 1) 1 block A)
unfolding page_allocator_alloc alloc_pages get_page
alloc_empty block A e = rw (e) refl

alloc_cached :
    (block : ℕ) (A : PageAllocator) (page : ℕ) (pages : List ℕ)
    → A.free_pages ≡ page ∷ pages
    → page_allocator_alloc block A
      ≡ (page, (record A { free_pages_counter = A.free_pages_counter - 1; free_pages = pages }, []))
unfolding page_allocator_alloc get_page
alloc_cached block A page pages e = rw (e) refl

-- The allocation by what the cache holds
alloc-Allocates :
    (block : ℕ) (A : PageAllocator) (pages : List ℕ)
    → IsValid A
    → 2 ≤ A.gc_threshold
    → A.gc_threshold < 2 ^ 32
    → A.free_pages ≡ pages
    → Allocates block A (page_allocator_alloc block A) × IsValid (page_allocator_alloc block A).1.0
alloc-Allocates block A [] v h l e =
    let more = A.gc_threshold / 2 - 1 in
    let r =
      free_rest_lem more 0 more block A (omega arith) e (v.counted ∙ ap length e) (omega arith) in
    rw (alloc_empty block A e, r)
      (
        mapped e (fits A.gc_threshold h l),
        record { counted = sym (length-pages_of block more); limit = omega arith },
      )
alloc-Allocates block A (page ∷ pages) v h l e =
    let n : A.free_pages_counter - 1 ≡ length pages = omega (arith, v.counted, ap length e) in
    rw (alloc_cached block A page pages e, n)
      (cached page pages e, record { counted = refl; limit = omega (arith, v.limit) })

-- With a valid cache and a threshold from 2 up to below 2 ^ 32, so that the index of the loop, an
-- `int`, stays in its range, an allocation unmaps nothing and leaves a
-- valid cache. It takes the last page that was cached, or, if there is none, the first page of a
-- new block; then exactly the pages behind it are cached, and the block is mapped long enough for
-- all of them.
pub page_allocator_alloc_lem :
    (block : ℕ) (A : PageAllocator)
    → IsValid A
    → 2 ≤ A.gc_threshold
    → A.gc_threshold < 2 ^ 32
    → Allocates block A (page_allocator_alloc block A) × IsValid (page_allocator_alloc block A).1.0
page_allocator_alloc_lem block A v h l = alloc-Allocates block A A.free_pages v h l refl
