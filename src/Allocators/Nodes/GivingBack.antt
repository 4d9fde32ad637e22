-- ===== src/Allocators/Nodes/GivingBack.antt =====
-- What becomes of the block when one of its nodes is freed.
use hybrid_databases.Base.{
  ℕ, zero, suc, ◌^◌, ◌<◌, ◌≡◌, ◌≢◌, refl, sym, subst, ap, ◌∙◌, arith, true, false, not, ◌&&◌, some,
  none, inl, inr, Option, List, [], ◌∷◌, ◌++◌, ◌==◌, if◌then◌else◌, Bool-cases, Option-cases, set,
}
use hybrid_databases.Allocators.Nodes.{
  NodeName, same_node, NodeAllocator, put_page, remove_block, leave_node, decreased, give_back,
  node_allocator_dump_next,
}
use hybrid_databases.Base.Members.{has, Distinct}
use hybrid_databases.Allocators.Nodes.Indices.{
  has-remove_ne, has-remove_self, Distinct-remove, count, count-cons, count-zero, count-le,
  AreIndices,
}
use hybrid_databases.Allocators.Nodes.Allocation.{allocated, IsValid, last-Distinct, has-last}

-- What `leave_node` leaves alone
pub record Same (A A1 : NodeAllocator) : Type 0 where
  pub blocks : A1.blocks ≡ A.blocks
  pub free : (c : ℕ) → (A1.page c).free_nodes ≡ (A.page c).free_nodes
  pub used : (c : ℕ) → (A1.page c).used ≡ (A.page c).used

pub leave_node-Same : (x : NodeName) (A : NodeAllocator) → Same A (leave_node x A)
unfolding leave_node node_allocator_dump_next
leave_node-Same (b, i) A =
    let A1 : NodeAllocator = record A {
      page = put_page b (record (A.page b) { ids = set (A.page b).ids i 0 }) A.page;
    } in
    let kept : (c : ℕ)
        → ((A1.page c).free_nodes ≡ (A.page c).free_nodes) × ((A1.page c).used ≡ (A.page c).used) =
      λ c. elim (Bool-cases (c == b)) [
        | inl same ↦
            let q : c ≡ b = ground arith in
            let t : (b == b) ≡ true = ground arith in rw (q, t) (refl, refl)
        | inr other ↦ rw other (refl, refl)
      ] in
    elim (Option-cases A.dump_ptr) [
      | inl e ↦
          rw (e, leave_node)
            (record { blocks = refl; free = λ c. (kept c).0; used = λ c. (kept c).1 })
      | inr (node, e) ↦ elim (Bool-cases (same_node node (b, i))) [
        | inl here ↦
            rw (e, leave_node, here)
              (record { blocks = refl; free = λ c. (kept c).0; used = λ c. (kept c).1 })
        | inr other ↦
            rw (e, leave_node, other)
              (record { blocks = refl; free = λ c. (kept c).0; used = λ c. (kept c).1 })
      ]
    ]

module _ (n : ℕ) {A A1 : NodeAllocator} (same : Same A A1) where
  pub Same-IsValid : IsValid n A → IsValid n A1
  Same-IsValid v = record {
    distinct = subst Distinct (sym same.blocks) v.distinct;
    block = λ c h.
        let ok = v.block c (ap (has c) (sym same.blocks) ∙ h) in
        record {
          free = subst (AreIndices n) (sym (same.free c)) ok.free;
          used = same.used c ∙ ok.used ∙ ap (count n) (sym (same.free c));
        };
  }

  pub Same-allocated : (x : NodeName) → allocated n A1 x ≡ allocated n A x
  Same-allocated x = rw (same.blocks, same.free x.0) refl

decreased-suc : (k : ℕ) → k < 2 ^ 64 → decreased (suc k) ≡ k
unfolding decreased
decreased-suc k h = omega arith

abbrev pub Frees : ℕ → NodeAllocator → NodeName → Option ℕ × NodeAllocator → Type 0
Frees n A x (page, A') =
    ((y : NodeName) → allocated n A' y ≡ (allocated n A y && not (same_node y x))) × IsValid n A'

module _ {n : ℕ} {A : NodeAllocator} (v : IsValid n A) (b i : ℕ) (there : has b A.blocks ≡ true)
    (small : i < n) (out : has i (A.page b).free_nodes ≡ false) where
  left : count n (A.page b).free_nodes ≡ suc (count n (i ∷ (A.page b).free_nodes))
  left = count-cons n i (A.page b).free_nodes small out

  last_freed :
      count n (i ∷ (A.page b).free_nodes) ≡ 0
      → Frees n A
          (b, i)
          (
            some b,
            record A {
              page = put_page b (record (A.page b) { used = decreased (A.page b).used }) A.page;
              blocks = remove_block b A.blocks;
              dump_blocks = remove_block b A.dump_blocks;
            },
          )
  last_freed none_left = (
    λ (c, j). elim (Bool-cases (c == b)) [
      | inl same ↦
          let q : c ≡ b = ground arith in
          rw q (
            ground (
              arith,
              has-remove_self b A.blocks v.distinct,
              count-zero n j (i ∷ (A.page b).free_nodes) none_left,
            ))
      | inr other ↦
          let ne : c ≢ b = λ e. ground arith in ground (arith, has-remove_ne c b A.blocks ne)
    ],
    record {
      distinct = Distinct-remove b A.blocks v.distinct;
      block = λ c h. elim (Bool-cases (c == b)) [
        | inl same ↦
            let q : c ≡ b = ground arith in
            absurd (let gone = has-remove_self b A.blocks v.distinct in ground arith)
        | inr other ↦
            let ne : c ≢ b = λ e. ground arith in
            rw (other, if◌then◌else◌) (v.block c (sym (has-remove_ne c b A.blocks ne) ∙ h))
      ];
    },
  )

  one_freed :
      (blocks : List ℕ)
      → Distinct blocks
      → ((c : ℕ) → has c blocks ≡ has c A.blocks)
      → decreased (A.page b).used ≡ count n (i ∷ (A.page b).free_nodes)
      → Frees n A
          (b, i)
          (
            none,
            record A {
              page =
                  put_page b
                    (record (A.page b) {
                      used = decreased (A.page b).used;
                      free_nodes = i ∷ (A.page b).free_nodes;
                    })
                    A.page;
              blocks = blocks;
            },
          )
  one_freed blocks d same_blocks e = (
    λ (c, j). elim (Bool-cases (c == b)) [
      | inl same ↦ let q : c ≡ b = ground arith in rw q (ground (arith, same_blocks b))
      | inr other ↦ ground (arith, same_blocks c)
    ],
    record {
      distinct = d;
      block = λ c h. elim (Bool-cases (c == b)) [
        | inl same ↦
            rw (same, if◌then◌else◌)
              (record { free = (small, out, (v.block b there).free); used = e })
        | inr other ↦ rw (other, if◌then◌else◌) (v.block c (sym (same_blocks c) ∙ h))
      ];
    },
  )

  pub fewer : n < 2 ^ 64 → decreased (A.page b).used ≡ count n (i ∷ (A.page b).free_nodes)
  fewer h =
      let most = count-le n (A.page b).free_nodes in
      ap decreased ((v.block b there).used ∙ left)
      ∙ decreased-suc (count n (i ∷ (A.page b).free_nodes)) (omega (arith, left))

  moved_back :
      (k : ℕ) (free : List ℕ)
      → (A.page b).free_nodes ≡ free
      → decreased (A.page b).used ≡ suc k
      → count n (i ∷ (A.page b).free_nodes) ≡ suc k
      → Frees n A (b, i) (give_back (b, i) A)
  unfolding give_back
  moved_back k [] f d e =
      let now =
        one_freed (remove_block b A.blocks ++ b ∷ []) (last-Distinct v b there) (has-last v b there)
          (d ∙ sym e) in
      rw (d, give_back, f) (rw f at now)
  moved_back k (j ∷ free) f d e =
      let now = one_freed A.blocks v.distinct (λ c. refl) (d ∙ sym e) in
      rw (d, give_back, f) (rw f at now)

  pub give_back-Frees :
      (k : ℕ)
      → decreased (A.page b).used ≡ k
      → count n (i ∷ (A.page b).free_nodes) ≡ k
      → Frees n A (b, i) (give_back (b, i) A)
  unfolding give_back
  give_back-Frees zero d e = rw (d, give_back) (last_freed e)
  give_back-Frees (suc k) d e = moved_back k (A.page b).free_nodes refl d e
