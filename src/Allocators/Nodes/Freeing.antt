-- ===== src/Allocators/Nodes/Freeing.antt =====
-- Freeing takes a node out of the set of the allocated nodes.
use hybrid_databases.Base.{
  ℕ, zero, suc, ◌^◌, ◌<◌, ◌≡◌, ◌≢◌, refl, ap, ◌∙◌, arith, true, false, not, ◌&&◌, some, none, inl,
  inr, Option, List, [], ◌∷◌, ◌==◌, if◌then◌else◌, Bool-cases, set, get_or,
}
use hybrid_databases.Allocators.Nodes.{
  NodeName, same_node, NodeAllocator, put_page, remove_block, leave_node, decreased, give_back,
  Block, id_of, node_allocator_free, node_allocator_dump_next,
}
use hybrid_databases.Base.Members.{has}
use hybrid_databases.Allocators.Nodes.Indices.{has-remove_ne, has-remove_self, count}
use hybrid_databases.Allocators.Nodes.Allocation.{allocated, IsValid, has-last}
use hybrid_databases.Allocators.Nodes.GivingBack.{
  leave_node-Same, Same-IsValid, Same-allocated, fewer, give_back-Frees,
}

module _ {n : ℕ} {A : NodeAllocator} (v : IsValid n A) (b i : ℕ) (there : has b A.blocks ≡ true)
    (small : i < n) (out : has i (A.page b).free_nodes ≡ false) where
  -- What becomes of the page, and that the ids and the dump's place stay
  record Gives (k : ℕ) (r : Option ℕ × NodeAllocator) : Type 0 where
    page : r.0 ≡ (if k == 0 then some b else none)
    blocks : (c : ℕ) → has c r.1.blocks ≡ (if c == b then not (k == 0) else has c A.blocks)
    dump_blocks : r.1.dump_blocks ≡ (if k == 0 then remove_block b A.dump_blocks else A.dump_blocks)
    dump_ptr : r.1.dump_ptr ≡ A.dump_ptr
    ids : (y : NodeName) → id_of r.1 y ≡ id_of A y

  kept_ids :
      (block : Block)
      → block.ids ≡ (A.page b).ids
      → (y : NodeName) → get_or (put_page b block A.page y.0).ids y.1 0 ≡ id_of A y
  kept_ids block e (c, j) = elim (Bool-cases (c == b)) [
    | inl same ↦ let q : c ≡ b = ground arith in rw (same, if◌then◌else◌) (rw (q, e) refl)
    | inr other ↦ rw (other, if◌then◌else◌) refl
  ]

  blocks_left : (k c : ℕ) → has c A.blocks ≡ (if c == b then not (suc k == 0) else has c A.blocks)
  blocks_left k c = elim (Bool-cases (c == b)) [
    | inl same ↦ let q : c ≡ b = ground arith in rw q (ground (arith, there))
    | inr other ↦ ground arith
  ]

  blocks_taken :
      (c : ℕ) → has c (remove_block b A.blocks) ≡ (if c == b then false else has c A.blocks)
  blocks_taken c = elim (Bool-cases (c == b)) [
    | inl same ↦
        let q : c ≡ b = ground arith in rw q (ground (arith, has-remove_self b A.blocks v.distinct))
    | inr other ↦
        let ne : c ≢ b = λ e. ground arith in ground (arith, has-remove_ne c b A.blocks ne)
  ]

  give_back-Gives :
      (free : List ℕ)
      → (A.page b).free_nodes ≡ free
      → (k : ℕ) → decreased (A.page b).used ≡ k
      → Gives k (give_back (b, i) A)
  unfolding give_back
  give_back-Gives free f zero d =
      rw (d, give_back)
        (record {
          page = refl;
          blocks = blocks_taken;
          dump_blocks = refl;
          dump_ptr = refl;
          ids = kept_ids _ refl;
        })
  give_back-Gives [] f (suc k) d =
      rw (d, give_back, f)
        (record {
          page = ground arith;
          blocks = λ c. has-last v b there c ∙ blocks_left k c;
          dump_blocks = ground arith;
          dump_ptr = refl;
          ids = kept_ids _ refl;
        })
  give_back-Gives (j ∷ free) f (suc k) d =
      rw (d, give_back, f)
        (record {
          page = ground arith;
          blocks = blocks_left k;
          dump_blocks = ground arith;
          dump_ptr = refl;
          ids = kept_ids _ refl;
        })

-- The id of the node is 0.
abbrev cleared : NodeName → NodeAllocator → NodeAllocator
cleared (b, i) A = record A {
  page = put_page b (record (A.page b) { ids = set (A.page b).ids i 0 }) A.page;
}

-- Where a dump that stood at `place` goes when `x` is freed: from `x` to the next node that it
-- finds with an id, `x` having none; from elsewhere it does not move.
abbrev dump_behind : Option NodeName → NodeName → NodeAllocator → Option NodeName
dump_behind none x A = A.dump_ptr
dump_behind (some node) x A =
    if same_node node x then (node_allocator_dump_next x (cleared x A)).dump_ptr else A.dump_ptr

record Leaves (place : Option NodeName) (x : NodeName) (A A1 : NodeAllocator) : Type 0 where
  page : A1.page ≡ (cleared x A).page
  dump_blocks : A1.dump_blocks ≡ A.dump_blocks
  dump_ptr : A1.dump_ptr ≡ dump_behind place x A

left_from :
    (place : Option NodeName) (x : NodeName) (A : NodeAllocator)
    → Leaves place x A (elim place [
      | none ↦ cleared x A
      | some node ↦
          if same_node node x then node_allocator_dump_next x (cleared x A) else cleared x A
    ])
unfolding node_allocator_dump_next
left_from none (b, i) A = record { page = refl; dump_blocks = refl; dump_ptr = refl }
left_from (some node) (b, i) A = elim (Bool-cases (same_node node (b, i))) [
  | inl here ↦ rw here (record { page = refl; dump_blocks = refl; dump_ptr = rw here refl })
  | inr other ↦ rw other (record { page = refl; dump_blocks = refl; dump_ptr = rw other refl })
]

leave_node-Leaves : (x : NodeName) (A : NodeAllocator) → Leaves A.dump_ptr x A (leave_node x A)
unfolding leave_node
leave_node-Leaves (b, i) A = left_from A.dump_ptr (b, i) A

get_or-set_zero :
    (xs : List ℕ) (i j : ℕ) → get_or (set xs i 0) j 0 ≡ (if j == i then 0 else get_or xs j 0)
get_or-set_zero [] i j = ground arith
get_or-set_zero (x ∷ xs) zero zero = refl
get_or-set_zero (x ∷ xs) zero (suc j) = ground arith
get_or-set_zero (x ∷ xs) (suc i) zero = ground arith
get_or-set_zero (x ∷ xs) (suc i) (suc j) = ground (arith, get_or-set_zero xs i j)

id_of-cleared :
    (x : NodeName) (A : NodeAllocator) (y : NodeName)
    → id_of (cleared x A) y ≡ (if same_node y x then 0 else id_of A y)
id_of-cleared (b, i) A (c, j) = elim (Bool-cases (c == b)) [
  | inl same ↦
      let q : c ≡ b = ground arith in
      rw (same, if◌then◌else◌) (rw q (ground (arith, get_or-set_zero (A.page b).ids i j)))
  | inr other ↦ rw (other, if◌then◌else◌) (ground arith)
]

-- How many nodes of the page of `x` are allocated besides it
abbrev left_with : ℕ → NodeAllocator → NodeName → ℕ
left_with n A (b, i) = count n (i ∷ (A.page b).free_nodes)

-- The allocator behind the freeing of `x`, and the page that is given back
pub record Freed (n : ℕ) (A : NodeAllocator) (x : NodeName) (r : Option ℕ × NodeAllocator)
    : Type 0 where
  pub nodes : (y : NodeName) → allocated n r.1 y ≡ (allocated n A y && not (same_node y x))
  pub ids : (y : NodeName) → id_of r.1 y ≡ (if same_node y x then 0 else id_of A y)
  pub page : r.0 ≡ (if left_with n A x == 0 then some x.0 else none)
  pub blocks :
      (c : ℕ) → has c r.1.blocks ≡ (if c == x.0 then not (left_with n A x == 0) else has c A.blocks)
  pub dump_blocks :
      r.1.dump_blocks
      ≡ (if left_with n A x == 0 then remove_block x.0 A.dump_blocks else A.dump_blocks)
  pub dump_ptr : r.1.dump_ptr ≡ dump_behind A.dump_ptr x A
  pub valid : IsValid n r.1

-- Freeing a node that is allocated, in a valid allocator with fewer than 2 ^ 64 nodes to a page:
-- it is not allocated afterwards and its id is 0; all other nodes are allocated or not, and have
-- the ids, as before. Its page is given back, and taken out of the blocks and those of the dump,
-- if no other node of it is allocated; otherwise no page is given back, its page is still among the
-- blocks and those of the dump stay. The other pages are among the blocks if they were before. A
-- dump that stood at the node goes on to the next one that it finds, any other stays where it is.
-- The allocator stays valid.
pub node_allocator_free_lem :
    (n : ℕ) {A : NodeAllocator} (x : NodeName)
    → IsValid n A
    → n < 2 ^ 64
    → allocated n A x ≡ true
    → Freed n A x (node_allocator_free x A)
unfolding node_allocator_free
node_allocator_free_lem n {A} (b, i) v h taken =
    let same = leave_node-Same (b, i) A in
    let leaves = leave_node-Leaves (b, i) A in
    let v1 = Same-IsValid n same v in
    let taken1 = Same-allocated n same (b, i) ∙ taken in
    let A1 = leave_node (b, i) A in
    let there : has b A1.blocks ≡ true = ground arith in
    let small : i < n = ground arith in
    let out : has i (A1.page b).free_nodes ≡ false = ground arith in
    let k = left_with n A (b, i) in
    let used : decreased (A1.page b).used ≡ k =
      fewer v1 b i there small out h ∙ ap (λ (l : List ℕ). count n (i ∷ l)) (same.free b) in
    let (others, ok) =
      give_back-Frees v1 b i there small out k used
        (ap (λ (l : List ℕ). count n (i ∷ l)) (same.free b)) in
    let gives = give_back-Gives v1 b i there small out (A1.page b).free_nodes refl k used in
    record {
      nodes = λ y. others y ∙ ap (λ t. t && not (same_node y (b, i))) (Same-allocated n same y);
      ids = λ y.
          gives.ids y
          ∙ ap (λ (p : ℕ → Block). get_or (p y.0).ids y.1 0) leaves.page
          ∙ id_of-cleared (b, i) A y;
      page = gives.page;
      blocks = λ c.
          gives.blocks c
          ∙ ap (λ (l : List ℕ). if c == b then not (k == 0) else has c l) same.blocks;
      dump_blocks =
          gives.dump_blocks
          ∙ ap (λ (l : List ℕ). if k == 0 then remove_block b l else l) leaves.dump_blocks;
      dump_ptr = gives.dump_ptr ∙ leaves.dump_ptr;
      valid = ok;
    }
