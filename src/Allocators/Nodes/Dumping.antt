-- ===== src/Allocators/Nodes/Dumping.antt =====
-- The walk of a dump over the nodes of an allocator.
use hybrid_databases.Base.{
  ℕ, zero, suc, ◌+◌, ◌-◌, ◌≤◌, ◌<◌, ◌≡◌, refl, sym, subst, ap, ◌∙◌, arith, true, false, Option,
  none, some, inl, inr, List, [], ◌∷◌, ◌++◌, length, ltb, Bool-cases, get_or, drop, append_assoc,
}
use hybrid_databases.Allocators.Nodes.{
  NodeName, Block, NodeAllocator, next_block, get_next_step, find_used, all_rounds, first_node,
  node_allocator_dump_init, node_allocator_dump_next,
}
use hybrid_databases.Base.Members.{has, Distinct, has-append}

-- The nodes of a block that have an id, by their ids from index `i` on
abbrev pub used_in : ℕ → ℕ → List ℕ → List NodeName
used_in b i [] = []
used_in b i (zero ∷ ids) = used_in b (suc i) ids
used_in b i (suc id ∷ ids) = (b, i) ∷ used_in b (suc i) ids

abbrev pub used_nodes : (ℕ → Block) → List ℕ → List NodeName
used_nodes pages [] = []
used_nodes pages (b ∷ blocks) = used_in b 0 (pages b).ids ++ used_nodes pages blocks

abbrev pub visit_from : (NodeName → List NodeName) → Option NodeName → List NodeName
visit_from next none = []
visit_from next (some node) = node ∷ next node

-- The nodes that a dump comes to, by `node_allocator_dump_next` until it is at the end
unfoldable pub visit : ℕ → NodeAllocator → List NodeName
visit zero A = []
visit (suc rounds) A =
    visit_from (λ (node : NodeName). visit rounds (node_allocator_dump_next node A)) A.dump_ptr

Distinct-before : (c : ℕ) (pre bs : List ℕ) → Distinct (pre ++ c ∷ bs) → has c pre ≡ false
Distinct-before c [] bs d = refl
Distinct-before c (x ∷ pre) bs d =
    ground (arith, has-append x pre (c ∷ bs), Distinct-before c pre bs d.1)

next_block-last : (b : ℕ) (pre : List ℕ) → has b pre ≡ false → next_block b (pre ++ b ∷ []) ≡ none
unfolding next_block
next_block-last b [] h = refl
next_block-last b (x ∷ []) h = ground arith
next_block-last b (x ∷ y ∷ pre) h = ground (arith, next_block-last b (y ∷ pre))

next_block-before :
    (b c : ℕ) (pre bs : List ℕ) → has b pre ≡ false → next_block b (pre ++ b ∷ c ∷ bs) ≡ some c
unfolding next_block
next_block-before b c [] bs h = ground arith
next_block-before b c (x ∷ []) bs h = ground arith
next_block-before b c (x ∷ y ∷ pre) bs h = ground (arith, next_block-before b c (y ∷ pre) bs)

drop-get_or : (i : ℕ) (xs : List ℕ) → i < length xs → drop i xs ≡ get_or xs i 0 ∷ drop (suc i) xs
drop-get_or i [] h = elim h [ ]
drop-get_or zero (x ∷ xs) h = refl
drop-get_or (suc i) (x ∷ xs) h = rw (drop-get_or i xs (omega arith)) refl

drop-end : (i : ℕ) (xs : List ℕ) → length xs ≤ i → drop i xs ≡ []
drop-end zero [] h = refl
drop-end zero (x ∷ xs) h = elim h [ ]
drop-end (suc i) [] h = refl
drop-end (suc i) (x ∷ xs) h = drop-end i xs (omega arith)

-- The walk visits distinct blocks with a node at least.
pub record IsWalkable (A : NodeAllocator) : Type 0 where
  pub distinct : Distinct A.dump_blocks
  pub filled : (b : ℕ) → has b A.dump_blocks ≡ true → 0 < length (A.page b).ids

all_rounds-append :
    (pages : ℕ → Block) (pre : List ℕ) (b : ℕ) (bs : List ℕ)
    → length (pages b).ids + all_rounds pages bs + 1 ≤ all_rounds pages (pre ++ b ∷ bs)
unfolding all_rounds
all_rounds-append pages [] b bs = omega arith
all_rounds-append pages (c ∷ pre) b bs = omega (arith, all_rounds-append pages pre b bs)

-- What is used from a node on, and behind it
abbrev from : (ℕ → Block) → ℕ → ℕ → List ℕ → List NodeName
from pages b i bs = used_in b i (drop i (pages b).ids) ++ used_nodes pages bs

abbrev behind : (ℕ → Block) → ℕ → ℕ → List ℕ → List NodeName
behind pages b i bs = from pages b (suc i) bs

abbrev rounds : (ℕ → Block) → ℕ → ℕ → List ℕ → ℕ
rounds pages b i bs = (length (pages b).ids - i) + all_rounds pages bs

-- Where the walk stands, and what it has still to visit
data Found (pages : ℕ → Block) (blocks : List ℕ) : Option NodeName → List NodeName → Type 0 where
  nothing : Found pages blocks none []
  found :
      (pre : List ℕ) (b : ℕ) (bs : List ℕ) (i : ℕ)
      → blocks ≡ pre ++ b ∷ bs
      → i < length (pages b).ids
      → Found pages blocks (some (b, i)) ((b, i) ∷ behind pages b i bs)

module _ (A : NodeAllocator) (w : IsWalkable A) where
  distinct_from :
      (pre : List ℕ) (b : ℕ) (bs : List ℕ) → A.dump_blocks ≡ pre ++ b ∷ bs → has b pre ≡ false
  distinct_from pre b bs e = Distinct-before b pre bs (subst Distinct e w.distinct)

  filled_at :
      (pre : List ℕ) (b : ℕ) (bs : List ℕ)
      → A.dump_blocks ≡ pre ++ b ∷ bs
      → 0 < length (A.page b).ids
  filled_at pre b bs e =
      let there : has b (pre ++ b ∷ bs) ≡ true = ground (arith, has-append b pre (b ∷ bs)) in
      w.filled b (ap (has b) e ∙ there)

  -- `find_used` with these rounds comes to what is used from a node on.
  abbrev Finds : ℕ → Type 0
  Finds fuel =
      (pre : List ℕ) (b : ℕ) (bs : List ℕ) (i : ℕ)
      → A.dump_blocks ≡ pre ++ b ∷ bs
      → i < length (A.page b).ids
      → rounds A.page b i bs ≤ fuel
      → Found A.page A.dump_blocks (find_used fuel A (some (b, i))) (from A.page b i bs)

  next_page :
      (fuel : ℕ)
      → Finds fuel
      → (pre : List ℕ) (b : ℕ) (bs : List ℕ) (i : ℕ) → A.dump_blocks ≡ pre ++ b ∷ bs
      → i < length (A.page b).ids
      → length (A.page b).ids ≤ suc i
      → rounds A.page b i bs ≤ suc fuel
      → Found A.page A.dump_blocks
          (find_used fuel A (get_next_step A (b, i)))
          (behind A.page b i bs)
  unfolding get_next_step all_rounds find_used
  next_page fuel find pre b [] i e small end h =
      let last : next_block b A.dump_blocks ≡ none =
        ap (next_block b) e ∙ next_block-last b pre (distinct_from pre b [] e) in
      let no_more : ltb (i + 1) (length (A.page b).ids) ≡ false = ground arith in
      rw (no_more, last, drop-end (suc i) (A.page b).ids end) nothing
  next_page fuel find pre b (c ∷ bs) i e small end h =
      let next : next_block b A.dump_blocks ≡ some c =
        ap (next_block b) e ∙ next_block-before b c pre bs (distinct_from pre b (c ∷ bs) e) in
      let no_more : ltb (i + 1) (length (A.page b).ids) ≡ false = ground arith in
      let e' : A.dump_blocks ≡ (pre ++ b ∷ []) ++ c ∷ bs =
        e ∙ sym (append_assoc pre (b ∷ []) (c ∷ bs)) in
      rw (no_more, next, drop-end (suc i) (A.page b).ids end)
        (find (pre ++ b ∷ []) c bs 0 e' (filled_at (pre ++ b ∷ []) c bs e') (omega arith))

  next_Found :
      (fuel : ℕ)
      → Finds fuel
      → (pre : List ℕ) (b : ℕ) (bs : List ℕ) (i : ℕ) → A.dump_blocks ≡ pre ++ b ∷ bs
      → i < length (A.page b).ids
      → rounds A.page b i bs ≤ suc fuel
      → Found A.page A.dump_blocks
          (find_used fuel A (get_next_step A (b, i)))
          (behind A.page b i bs)
  unfolding get_next_step
  next_Found fuel find pre b bs i e small h =
      elim (Bool-cases (ltb (i + 1) (length (A.page b).ids))) [
        | inl more ↦
            let one : i + 1 ≡ suc i = omega arith in
            rw (more, one) (find pre b bs (suc i) e (ground arith) (omega arith))
        | inr end ↦ next_page fuel find pre b bs i e small (ground arith) h
      ]

  this_node :
      (fuel : ℕ)
      → Finds fuel
      → (pre : List ℕ) (b : ℕ) (bs : List ℕ) (i id : ℕ) → A.dump_blocks ≡ pre ++ b ∷ bs
      → i < length (A.page b).ids
      → rounds A.page b i bs ≤ suc fuel
      → get_or (A.page b).ids i 0 ≡ id
      → Found A.page A.dump_blocks (find_used (suc fuel) A (some (b, i))) (from A.page b i bs)
  unfolding find_used
  this_node fuel find pre b bs i zero e small h free =
      rw (drop-get_or i (A.page b).ids small, free, find_used)
        (next_Found fuel find pre b bs i e small h)
  this_node fuel find pre b bs i (suc id) e small h used =
      rw (drop-get_or i (A.page b).ids small, used, find_used) (found pre b bs i e small)

  find_Found : (fuel : ℕ) → Finds fuel
  find_Found zero pre b bs i e small h = absurd (omega arith)
  find_Found (suc fuel) pre b bs i e small h =
      this_node fuel (find_Found fuel) pre b bs i (get_or (A.page b).ids i 0) e small h refl

  dump_next-Found :
      (pre : List ℕ) (b : ℕ) (bs : List ℕ) (i : ℕ)
      → A.dump_blocks ≡ pre ++ b ∷ bs
      → i < length (A.page b).ids
      → Found A.page A.dump_blocks
          (node_allocator_dump_next (b, i) A).dump_ptr
          (behind A.page b i bs)
  unfolding node_allocator_dump_next
  dump_next-Found pre b bs i e small =
      let fuel = all_rounds A.page A.dump_blocks in
      next_Found fuel (find_Found fuel) pre b bs i e small (
        let most =
          subst
            (λ (t : List ℕ). length (A.page b).ids + all_rounds A.page bs + 1 ≤ all_rounds A.page t)
            (sym e) (all_rounds-append A.page pre b bs) in
        omega arith)

  dump_init-Found :
      (blocks : List ℕ)
      → A.dump_blocks ≡ blocks
      → Found A.page A.dump_blocks
          (find_used (all_rounds A.page A.dump_blocks) A (first_node A.dump_blocks))
          (used_nodes A.page A.dump_blocks)
  unfolding find_used all_rounds
  dump_init-Found [] e = rw e nothing
  dump_init-Found (b ∷ bs) e =
      subst
        (λ (t : List ℕ).
          Found A.page A.dump_blocks (find_used (all_rounds A.page A.dump_blocks) A (first_node t))
            (used_nodes A.page t))
        (sym e)
        (find_Found (all_rounds A.page A.dump_blocks) [] b bs 0 e (filled_at [] b bs e) (
          let most =
            subst
              (λ (t : List ℕ).
                length (A.page b).ids + all_rounds A.page bs + 1 ≤ all_rounds A.page t)
              (sym e) (all_rounds-append A.page [] b bs) in
          omega arith))

visit-Found :
    (k : ℕ) (A : NodeAllocator) {o : Option NodeName} {nodes : List NodeName}
    → IsWalkable A
    → A.dump_ptr ≡ o
    → Found A.page A.dump_blocks o nodes
    → length nodes < k
    → visit k A ≡ nodes
unfolding visit
visit-Found zero A w e f h = elim h [ ]
visit-Found (suc k) A w e nothing h =
    ap (visit_from (λ (node : NodeName). visit k (node_allocator_dump_next node A))) e
visit-Found (suc k) A w e (found pre b bs i q small) h =
    let A' = node_allocator_dump_next (b, i) A in
    let w' : IsWalkable A' =
      unfold node_allocator_dump_next in record { distinct = w.distinct; filled = w.filled } in
    let f' : Found A'.page A'.dump_blocks A'.dump_ptr (behind A.page b i bs) =
      unfold node_allocator_dump_next in dump_next-Found A w pre b bs i q small in
    ap (visit_from (λ (node : NodeName). visit k (node_allocator_dump_next node A))) e
    ∙ ap (λ (t : List NodeName). (b, i) ∷ t) (visit-Found k A' w' refl f' (omega arith))

-- A dump visits every node that has an id once, block by block in the order in which the blocks
-- were made and by the index within a block, and then ends; blocks are distinct and hold a node at
-- least, and nothing changes while it runs.
pub visit-node_allocator_dump_init :
    (A : NodeAllocator)
    → IsWalkable A
    → visit (suc (length (used_nodes A.page A.dump_blocks))) (node_allocator_dump_init A)
      ≡ used_nodes A.page A.dump_blocks
unfolding node_allocator_dump_init
visit-node_allocator_dump_init A w =
    visit-Found (suc (length (used_nodes A.page A.dump_blocks))) (node_allocator_dump_init A)
      (record { distinct = w.distinct; filled = w.filled }) refl
      (dump_init-Found A w A.dump_blocks refl) (omega arith)
