-- ===== src/Allocators/Nodes.antt =====
-- allocators/node_allocator.h and node_allocator.include.c: pages that are cut into nodes of one
-- size, `nodes_per_block` to a page. A node is known by the address of its page and its index in it.
-- The mutex is left out: each operation runs as a whole.
pub mod Indices
pub mod Allocation
pub mod GivingBack
pub mod Freeing
pub mod Dumping
use hybrid_databases.Base.{
  ℕ, zero, suc, ◌+◌, ◌-◌, ◌%◌, ◌^◌, Bool, true, false, ◌&&◌, ◌||◌, Option, none, some, List, [],
  ◌∷◌, ◌++◌, length, ◌==◌, ltb, if◌then◌else◌, get_or, set, replicate,
}

abbrev pub NodeName : Type 0
NodeName = ℕ × ℕ

abbrev pub same_node : NodeName → NodeName → Bool
same_node (b, i) (c, j) = (b == c) && (i == j)

-- `struct NodeAllocatorBlock`: the ids of its nodes, and the indices of the free ones, the first to
-- be taken first
pub record Block : Type 0 where
  pub ids : List ℕ
  pub free_nodes : List ℕ
  pub used : ℕ

-- `struct NodeAllocator`, with the pages of its blocks
pub record NodeAllocator : Type 0 where
  pub page : ℕ → Block
  pub blocks : List ℕ
  pub dump_blocks : List ℕ
  pub dump_ptr : Option NodeName

abbrev pub put_page : ℕ → Block → (ℕ → Block) → ℕ → Block
put_page b block pages c = if c == b then block else pages c

-- `list_remove` of a block
unfoldable pub remove_block : ℕ → List ℕ → List ℕ
remove_block b [] = []
remove_block b (c ∷ blocks) = if c == b then blocks else c ∷ remove_block b blocks

unfoldable pub last_block : List ℕ → Option ℕ
last_block [] = none
last_block (b ∷ blocks) = elim (last_block blocks) [ none ↦ some b | some c ↦ some c ]

-- The stack of free nodes, behind the pushes of `_node_allocator_alloc_page`
unfoldable pub pushed : ℕ → List ℕ
pushed zero = []
pushed (suc i) = i ∷ pushed i

-- `new_page` is what the page allocator gives.
unfoldable pub alloc_page : ℕ → ℕ → NodeAllocator → Option NodeName × NodeAllocator
unfolding pushed
alloc_page zero new_page A = (
  none,
  record A {
    page = put_page new_page (record { ids = []; free_nodes = []; used = 1 }) A.page;
    blocks = A.blocks ++ new_page ∷ [];
    dump_blocks = A.dump_blocks ++ new_page ∷ [];
  },
)
alloc_page (suc last) new_page A = (
  some (new_page, last),
  record A {
    page =
        put_page new_page
          (record { ids = replicate (suc last) 0; free_nodes = pushed last; used = 1 }) A.page;
    blocks = A.blocks ++ new_page ∷ [];
    dump_blocks = A.dump_blocks ++ new_page ∷ [];
  },
)

-- Without a block the test of its free nodes reads `dump_ptr`, which is null then, and the head of
-- the empty list is taken out of it and put in again: nothing changes.
unfoldable pub alloc_from : Option ℕ → ℕ → ℕ → NodeAllocator → Option NodeName × NodeAllocator
unfolding alloc_page remove_block
alloc_from none nodes_per_block new_page A = alloc_page nodes_per_block new_page A
alloc_from (some b) nodes_per_block new_page A = elim (A.page b).free_nodes [
  | [] ↦ alloc_page nodes_per_block new_page (record A { blocks = b ∷ remove_block b A.blocks })
  | i ∷ free ↦ (
    some (b, i),
    record A {
      page =
          put_page b (record (A.page b) { free_nodes = free; used = (A.page b).used + 1 }) A.page;
      blocks = elim free [ [] ↦ b ∷ remove_block b A.blocks | j ∷ more ↦ A.blocks ];
    },
  )
]

unfoldable pub node_allocator_alloc : ℕ → ℕ → NodeAllocator → Option NodeName × NodeAllocator
unfolding alloc_from last_block
node_allocator_alloc nodes_per_block new_page A =
    alloc_from (last_block A.blocks) nodes_per_block new_page A

-- The block behind one among those of the dump
unfoldable pub next_block : ℕ → List ℕ → Option ℕ
next_block b [] = none
next_block b (c ∷ []) = none
next_block b (c ∷ d ∷ blocks) = if c == b then some d else next_block b (d ∷ blocks)

abbrev pub id_of : NodeAllocator → NodeName → ℕ
id_of A (b, i) = get_or (A.page b).ids i 0

-- `_node_get_next_step`; `none` is the end of the blocks.
unfoldable pub get_next_step : NodeAllocator → NodeName → Option NodeName
unfolding next_block
get_next_step A (b, i) =
    if ltb (i + 1) (length (A.page b).ids)
    then some (b, i + 1)
    else elim (next_block b A.dump_blocks) [ none ↦ none | some c ↦ some (c, 0) ]

-- The loop of `node_allocator_dump_init`, from a node on
unfoldable pub find_used : ℕ → NodeAllocator → Option NodeName → Option NodeName
unfolding get_next_step
find_used fuel A none = none
find_used zero A (some node) = none
find_used (suc fuel) A (some node) = elim (id_of A node) [
  | zero ↦ find_used fuel A (get_next_step A node)
  | suc id ↦ some node
]

-- Rounds for all nodes of all blocks
unfoldable pub all_rounds : (ℕ → Block) → List ℕ → ℕ
all_rounds pages [] = 0
all_rounds pages (b ∷ blocks) = length (pages b).ids + all_rounds pages blocks + 1

abbrev pub first_node : List ℕ → Option NodeName
first_node [] = none
first_node (b ∷ blocks) = some (b, 0)

unfoldable pub node_allocator_dump_init : NodeAllocator → NodeAllocator
unfolding find_used all_rounds
node_allocator_dump_init A = record A {
  dump_ptr = find_used (all_rounds A.page A.dump_blocks) A (first_node A.dump_blocks);
}

-- `_node_allocator_dump_next_nolock`
unfoldable pub node_allocator_dump_next : NodeName → NodeAllocator → NodeAllocator
unfolding find_used all_rounds get_next_step
node_allocator_dump_next node A = record A {
  dump_ptr = find_used (all_rounds A.page A.dump_blocks) A (get_next_step A node);
}

-- `node->id = 0`, and the dump goes on if it stood at the node.
unfoldable pub leave_node : NodeName → NodeAllocator → NodeAllocator
unfolding node_allocator_dump_next
leave_node (b, i) A =
    let A1 = record A {
      page = put_page b (record (A.page b) { ids = set (A.page b).ids i 0 }) A.page;
    } in
    elim A.dump_ptr [
      | none ↦ A1
      | some node ↦ if same_node node (b, i) then node_allocator_dump_next (b, i) A1 else A1
    ]

-- `--block->used`
unfoldable pub decreased : ℕ → ℕ
decreased used = (used + (2 ^ 64 - 1)) % 2 ^ 64

-- What becomes of the block; the page is given back if its last node is freed.
unfoldable pub give_back : NodeName → NodeAllocator → Option ℕ × NodeAllocator
unfolding remove_block decreased
give_back (b, i) A = elim (decreased (A.page b).used) [
  | zero ↦ (
    some b,
    record A {
      page = put_page b (record (A.page b) { used = decreased (A.page b).used }) A.page;
      blocks = remove_block b A.blocks;
      dump_blocks = remove_block b A.dump_blocks;
    },
  )
  | suc left ↦ (
    none,
    record A {
      page =
          put_page b
            (record (A.page b) {
              used = decreased (A.page b).used;
              free_nodes = i ∷ (A.page b).free_nodes;
            })
            A.page;
      blocks = elim (A.page b).free_nodes [
        | [] ↦ remove_block b A.blocks ++ b ∷ []
        | j ∷ more ↦ A.blocks
      ];
    },
  )
]

unfoldable pub node_allocator_free : NodeName → NodeAllocator → Option ℕ × NodeAllocator
unfolding leave_node give_back
node_allocator_free node A = give_back node (leave_node node A)
