-- ===== src/Allocators/Nodes/Allocation.antt =====
-- The allocated nodes as a set: allocation puts a node into it, freeing takes one out.
use hybrid_databases.Base.{
  ℕ, ◌≡◌, arith, Bool, true, false, not, ◌&&◌, ◌||◌, some, inl, inr, Option, [], ◌∷◌, ◌++◌, ◌==◌,
  ltb, Bool-cases,
}
use hybrid_databases.Allocators.Nodes.{NodeName, same_node, Block, NodeAllocator, remove_block}
use hybrid_databases.Base.Members.{has, Distinct, has-append, Distinct-append}
use hybrid_databases.Allocators.Nodes.Indices.{
  has-remove_ne, has-remove_self, Distinct-remove, count, AreIndices,
}

-- A node is allocated if it lies in a block and is not among the free ones.
abbrev pub allocated : ℕ → NodeAllocator → NodeName → Bool
allocated n A (b, i) = has b A.blocks && (ltb i n && not (has i (A.page b).free_nodes))

-- The free nodes of a block are distinct and the others are counted.
pub record IsBlock (n : ℕ) (block : Block) : Type 0 where
  pub free : AreIndices n block.free_nodes
  pub used : block.used ≡ count n block.free_nodes

-- `n` is the number of nodes per block.
pub record IsValid (n : ℕ) (A : NodeAllocator) : Type 0 where
  pub distinct : Distinct A.blocks
  pub block : (b : ℕ) → has b A.blocks ≡ true → IsBlock n (A.page b)

abbrev pub Allocates : ℕ → NodeAllocator → Option NodeName × NodeAllocator → Type 0
Allocates n A (result, A') =
    (node : NodeName) × (result ≡ some node)
    × (allocated n A node ≡ false)
    × ((x : NodeName) → allocated n A' x ≡ (same_node x node || allocated n A x))
    × IsValid n A'

-- A block that is moved in its list
module _ {n : ℕ} {A : NodeAllocator} (v : IsValid n A) (b : ℕ) (there : has b A.blocks ≡ true) where
  pub has-last : (c : ℕ) → has c (remove_block b A.blocks ++ b ∷ []) ≡ has c A.blocks
  has-last c = elim (Bool-cases (c == b)) [
    | inl same ↦ ground (arith, has-append c (remove_block b A.blocks) (b ∷ []))
    | inr other ↦ ground (
      arith,
      has-append c (remove_block b A.blocks) (b ∷ []),
      has-remove_ne c b A.blocks (λ e. ground arith),
    )
  ]

  pub last-Distinct : Distinct (remove_block b A.blocks ++ b ∷ [])
  last-Distinct =
      Distinct-append b (remove_block b A.blocks) (has-remove_self b A.blocks v.distinct)
        (Distinct-remove b A.blocks v.distinct)
