-- ===== src/Tests/AllocatorRuns.antt =====
-- Runs of the allocators and of the registration of handles.
use hybrid_databases.Base.{ℕ, ◌-◌, ◌≡◌, ◌≢◌, ◌≤◌, refl, arith, List, [], ◌∷◌, length, get_or}
use hybrid_databases.Allocators.Generic.{
  GenericAllocator, Collected, collect_garbage, collect_garbage_lem, get_time,
}
use hybrid_databases.Allocators.Versioned.{VPageAllocator, due, waiting_onto, gc_loop, gc_loop_lem}
use hybrid_databases.Allocators.Pages.{PageAllocator, page_allocator_init, page_allocator_alloc}
use hybrid_databases.Allocators.Pages.Blocks.{Allocates, page_allocator_alloc_lem}
use hybrid_databases.Allocators.Pages.Blocks as Pages

abbrev waiting : GenericAllocator
waiting = record { gc_threshold = 2; counter = 2; free_list = (40, 9) ∷ (48, 3) ∷ [] }

abbrev starts : List ℕ
starts = 0 ∷ 5 ∷ []

collect_garbage_lem_example :
    Collected
      (get_time starts)
      waiting
      (collect_garbage starts waiting).0
      (collect_garbage starts waiting).1
    × ((i : ℕ) → get_or starts i 0 ≢ 0 → get_time starts ≤ get_or starts i 0)
collect_garbage_lem_example = collect_garbage_lem starts waiting refl

abbrev paged : VPageAllocator
paged = record { gc_threshold = 2; free_pages_count = 2; free_pages = (40, 9) ∷ (48, 3) ∷ [] }

gc_loop_lem_example :
    ((gc_loop 5 ((40, 9) ∷ (48, 3) ∷ []) paged).1 ≡ due 5 ((40, 9) ∷ (48, 3) ∷ []))
    × ((gc_loop 5 ((40, 9) ∷ (48, 3) ∷ []) paged).0.free_pages
        ≡ waiting_onto 5 ((40, 9) ∷ (48, 3) ∷ []) [])
    × ((gc_loop 5 ((40, 9) ∷ (48, 3) ∷ []) paged).0.free_pages_count
        ≡ length (gc_loop 5 ((40, 9) ∷ (48, 3) ∷ []) paged).0.free_pages - 1)
    × ((gc_loop 5 ((40, 9) ∷ (48, 3) ∷ []) paged).0.gc_threshold ≡ 2)
gc_loop_lem_example = gc_loop_lem 5 ((40, 9) ∷ (48, 3) ∷ []) paged refl

abbrev no_pages : PageAllocator
no_pages = page_allocator_init 8

no_pages_lem : Pages.IsValid no_pages × (no_pages.gc_threshold ≡ 8)
unfolding page_allocator_init
no_pages_lem = (record { counted = refl; limit = omega arith }, refl)

page_allocator_alloc_lem_example :
    Allocates 40960 no_pages (page_allocator_alloc 40960 no_pages)
    × Pages.IsValid (page_allocator_alloc 40960 no_pages).1.0
page_allocator_alloc_lem_example =
    page_allocator_alloc_lem 40960 no_pages no_pages_lem.0 (omega (arith, no_pages_lem.1))
      (omega (arith, no_pages_lem.1))
