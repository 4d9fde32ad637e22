-- ===== src/Allocators/Pages.antt =====
-- allocators/page_allocator.h and its .include.c in one thread: pages by their addresses, the cache
-- of the free ones, and those that are given back to the system, in order.
pub mod Blocks
use hybrid_databases.Base.{
  ℕ, zero, suc, ◌+◌, ◌-◌, ◌*◌, ◌/◌, ◌%◌, ◌^◌, ◌≡◌, ◌≤◌, ◌<◌, refl, sym, ap, ◌∙◌, arith, Option,
  none, some, List, [], ◌∷◌, ◌++◌, length, ltb, false, ◌==◌, if◌then◌else◌, Bool-cases, inl, inr,
}

-- `struct PageAllocator`
pub record PageAllocator : Type 0 where
  pub gc_threshold : ℕ
  pub free_pages_counter : ℕ
  pub free_pages : List ℕ

abbrev pub page_size : ℕ
page_size = 4096

-- `page_allocator_init`
unfoldable pub page_allocator_init : ℕ → PageAllocator
page_allocator_init gc_threshold = record {
  gc_threshold = if ltb 2 gc_threshold then gc_threshold else 2;
  free_pages_counter = 0;
  free_pages = [];
}

-- `_page_allocator_get_page`
unfoldable pub get_page : PageAllocator → Option ℕ × PageAllocator
get_page A = elim A.free_pages [
  | [] ↦ (none, A)
  | page ∷ pages ↦
      (some page, record A { free_pages_counter = A.free_pages_counter - 1; free_pages = pages })
]

-- The loop of `_page_allocator_collect_garbage`, by recursion on the list that it pops from
unfoldable pub unmap_pages : ℕ → List ℕ → PageAllocator → PageAllocator × List ℕ
unmap_pages threshold [] A = (A, [])
unmap_pages threshold (page ∷ pages) A =
    let A1 = record A { free_pages_counter = A.free_pages_counter - 1; free_pages = pages } in
    let (left, unmapped) = unmap_pages threshold pages A1 in
    if ltb threshold A.free_pages_counter then (left, page ∷ unmapped) else (A, [])

-- `_page_allocator_collect_garbage`; `page_allocator_destroy` and
-- `page_allocator_collect_garbage` call it with 0.
unfoldable pub page_allocator_collect_garbage : ℕ → PageAllocator → PageAllocator × List ℕ
unfolding unmap_pages
page_allocator_collect_garbage threshold A = unmap_pages threshold A.free_pages A

-- `page_allocator_free`
unfoldable pub page_allocator_free : ℕ → PageAllocator → PageAllocator × List ℕ
unfolding page_allocator_collect_garbage
page_allocator_free page A =
    let A1 = record A {
      free_pages_counter = A.free_pages_counter + 1;
      free_pages = page ∷ A.free_pages;
    } in
    if ltb A1.gc_threshold A1.free_pages_counter
    then page_allocator_collect_garbage (A1.gc_threshold / 2) A1
    else (A1, [])

-- The length that is mapped, in 64 bits
unfoldable pub mapped_length : ℕ → ℕ
mapped_length gc_threshold =
    let pages = (page_size * gc_threshold) % 2 ^ 64 / 2 in if pages == 0 then 1 else pages

-- The loop of `_page_allocator_alloc_pages`, `n` rounds from `i` on. The index is an `int` in the
-- program and has no bound here.
unfoldable pub free_rest : ℕ → ℕ → ℕ → PageAllocator → PageAllocator × List ℕ
unfolding page_allocator_free
free_rest zero i block A = (A, [])
free_rest (suc n) i block A =
    let (A1, unmapped) = page_allocator_free (block + i * page_size) A in
    let (A2, unmapped2) = free_rest n (i + 1) block A1 in (A2, unmapped ++ unmapped2)

-- `_page_allocator_alloc_pages`, where `block` is what `mmap` returns
unfoldable pub alloc_pages : ℕ → PageAllocator → ℕ × (PageAllocator × List ℕ)
unfolding get_page free_rest
alloc_pages block A = elim (get_page A).0 [
  | none ↦ (block, free_rest (A.gc_threshold / 2 - 1) 1 block A)
  | some page ↦ (page, ((get_page A).1, []))
]

-- `page_allocator_alloc`
unfoldable pub page_allocator_alloc : ℕ → PageAllocator → ℕ × (PageAllocator × List ℕ)
unfolding get_page alloc_pages
page_allocator_alloc block A = elim (get_page A).0 [
  | none ↦ alloc_pages block (get_page A).1
  | some page ↦ (page, ((get_page A).1, []))
]
