-- ===== src/Tests/NodeRuns.antt =====
-- Runs of the allocator of nodes.
use hybrid_databases.Base.{
  if◌then◌else◌, ◌==◌, Bool-cases, inl, inr, ◌<◌, length, some, none, ◌≡◌, refl, arith, ℕ, [], ◌∷◌,
}
use hybrid_databases.Allocators.Nodes.{
  NodeAllocator, put_page, node_allocator_free, node_allocator_dump_init,
}
use hybrid_databases.Allocators.Nodes.Indices.{count}
use hybrid_databases.Allocators.Nodes.Allocation.{IsBlock, IsValid}
use hybrid_databases.Allocators.Nodes.Freeing.{Freed, node_allocator_free_lem}
use hybrid_databases.Allocators.Nodes.Dumping.{visit, visit-node_allocator_dump_init}

abbrev no_nodes : NodeAllocator
no_nodes = record {
  page = λ b. record { ids = []; free_nodes = []; used = 0 };
  blocks = [];
  dump_blocks = [];
  dump_ptr = none;
}

-- Node 0 of the first page and both nodes of the second one are used; a dump stands at the first.
abbrev three_nodes : NodeAllocator
three_nodes = record {
  page =
      put_page 4096 (record { ids = 5 ∷ 0 ∷ []; free_nodes = 1 ∷ []; used = 1 })
        (λ b. record { ids = 6 ∷ 7 ∷ []; free_nodes = []; used = 2 });
  blocks = 8192 ∷ 4096 ∷ [];
  dump_blocks = 4096 ∷ 8192 ∷ [];
  dump_ptr = some (4096, 0);
}

three_nodes-IsBlock : (b : ℕ) → IsBlock 2 (three_nodes.page b)
unfolding count
three_nodes-IsBlock b = elim (Bool-cases (b == 4096)) [
  | inl first ↦ rw (first, if◌then◌else◌) (record { free = (omega arith, refl, tt); used = refl })
  | inr other ↦ rw (other, if◌then◌else◌) (record { free = tt; used = refl })
]

three_nodes-IsValid : IsValid 2 three_nodes
three_nodes-IsValid = record { distinct = (refl, (refl, tt)); block = λ b h. three_nodes-IsBlock b }

node_allocator_free_lem_example :
    Freed 2 three_nodes (4096, 0) (node_allocator_free (4096, 0) three_nodes)
node_allocator_free_lem_example =
    node_allocator_free_lem 2 (4096, 0) three_nodes-IsValid (omega arith) refl

three_nodes-filled : (b : ℕ) → 0 < length (three_nodes.page b).ids
three_nodes-filled b = elim (Bool-cases (b == 4096)) [
  | inl first ↦ rw (first, if◌then◌else◌) (omega arith)
  | inr other ↦ rw (other, if◌then◌else◌) (omega arith)
]

visit-node_allocator_dump_init_example :
    visit 4 (node_allocator_dump_init three_nodes) ≡ (4096, 0) ∷ (8192, 0) ∷ (8192, 1) ∷ []
visit-node_allocator_dump_init_example =
    visit-node_allocator_dump_init three_nodes
      (record { distinct = (refl, (refl, tt)); filled = λ b h. three_nodes-filled b })
