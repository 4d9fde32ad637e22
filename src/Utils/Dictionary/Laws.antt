-- ===== src/Utils/Dictionary/Laws.antt =====
-- The dictionary is a finite map: its invariant, and what each operation does to the map.
use hybrid_databases.Base.{
  ℕ, ◌+◌, ◌-◌, ◌*◌, ◌≤◌, ◌<◌, ◌≡◌, ◌≢◌, refl, sym, ap, ◌∙◌, arith, true, none, List, [], ◌∷◌,
  length, ◌==◌, ltb, if◌then◌else◌, replicate, length-replicate, inl, inr, each_below,
  each_below_lem, Bool-cases,
}
use hybrid_databases.Utils.Dictionary.{Dictionary, init, hash, capacity_at, find, get_node, rebuild}
use hybrid_databases.Utils.Dictionary.Chains.{count, or_else, find-none, find_last-eq-find}
use hybrid_databases.Utils.Dictionary.Buckets.{
  Chain, chain, total, total-empty, chain-empty, count_all-eq-count, last_all-eq-find_last,
  rehash-Moved,
}

-- The last entry of the table that is not 0.
abbrev pub last_index : ℕ
last_index = 59

capacity_table : each_below (λ i. ltb 0 (capacity_at (i + 1))) 59 ≡ true
unfolding each_below capacity_at
capacity_table = refl

pub capacity_at_pos : (i : ℕ) → 0 < i → i ≤ last_index → 0 < capacity_at i
capacity_at_pos i h k =
    let t : ltb 0 (capacity_at (i - 1 + 1)) ≡ true =
      each_below_lem _ 59 (i - 1) (omega arith) capacity_table in
    let e : i - 1 + 1 ≡ i = omega arith in ground (arith, (rw e at t))

pub capacity_at-zero : capacity_at 0 ≡ 0
unfolding capacity_at
capacity_at-zero = refl

module _ {V : Type 0} where
  -- Every key stands at most once, on the chain that the hash names; `size` counts the nodes, and
  -- the nodes in use, those kept and
  -- those `taken` out to be inserted make up the pages.
  pub record IsValid (items taken : ℕ) (D : Dictionary V) : Type 0 where
    pub fits : length D.buckets ≡ D.capacity
    pub cap : D.capacity ≡ capacity_at D.capacity_index
    pub known : D.capacity_index ≤ last_index
    pub placed : (j i : ℕ) → count j (chain D.buckets i) ≤ (if hash D.capacity j == i then 1 else 0)
    pub sum : total D.buckets ≡ D.size
    pub nodes : D.size + D.free_nodes + taken ≡ D.pages * items

  pub init-IsValid : (items : ℕ) → IsValid items 0 (init V)
  unfolding total count
  init-IsValid items = record {
    fits = refl;
    cap = sym capacity_at-zero;
    known = omega arith;
    placed = λ j i. omega arith;
    sum = refl;
    nodes = omega arith;
  }

count-nil : (V : Type 0) (j : ℕ) → count {V = V} j [] ≡ 0
unfolding count
count-nil V j = refl

find_nil : (V : Type 0) (j : ℕ) → find {V = V} j [] ≡ none
unfolding find
find_nil V j = refl

count-no_chain :
    {V : Type 0} (bs : List (Chain V)) (j i : ℕ) → length bs ≡ 0 → count j (chain bs i) ≡ 0
count-no_chain {V} [] j i h = count-nil V j
count-no_chain (b ∷ bs) j i h = absurd (omega arith)

module _ {V : Type 0} {items taken : ℕ} {D : Dictionary V} (v : IsValid items taken D) where
  -- The test for an empty table changes nothing.
  pub get_node-find : (j : ℕ) → get_node D j ≡ find j (chain D.buckets (hash D.capacity j))
  unfolding get_node
  get_node-find j = elim (Bool-cases (D.capacity == 0)) [
    | inl e ↦ rw e (
        sym (
          find-none j (chain D.buckets (hash D.capacity j))
            (count-no_chain D.buckets j (hash D.capacity j) (ground arith))))
    | inr e ↦ rw e
  ]

module _ {V : Type 0} {items taken : ℕ} {D : Dictionary V} (v : IsValid items taken D) where
  module _ (index : ℕ) (low : 0 < index) (high : index ≤ last_index) where
    abbrev pub rebuilt : Dictionary V
    rebuilt = rebuild D index

    alone : (j i : ℕ) → i ≢ hash D.capacity j → count j (chain D.buckets i) ≡ 0
    alone j i ne = ground (arith, v.placed j i)

    pub rebuild-IsValid : IsValid items taken rebuilt
    unfolding rebuild
    rebuild-IsValid =
        let c = capacity_at index in
        let m =
          rehash-Moved c (capacity_at_pos index low high) D.buckets (replicate c [])
            (length-replicate c []) in
        record {
          fits = m.fits;
          cap = refl;
          known = high;
          placed = λ j i. ground (
            arith,
            m.counts j i,
            ap (count j) (chain-empty {V = V} c i),
            count-nil V j,
            count_all-eq-count j D.buckets (hash D.capacity j) (alone j),
            v.placed j (hash D.capacity j),
          );
          sum = omega (arith, m.sum, total-empty V c, v.sum);
          nodes = v.nodes;
        }

    -- Moving all nodes to a table of another size loses and changes none.
    pub get_node-rebuild : (j : ℕ) → get_node rebuilt j ≡ get_node D j
    get_node-rebuild j =
        let c = capacity_at index in
        let m =
          rehash-Moved c (capacity_at_pos index low high) D.buckets (replicate c [])
            (length-replicate c []) in
        let h = hash D.capacity j in
        get_node-find rebuild-IsValid j
        ∙ (unfold rebuild or_else in
            ground (
              arith,
              m.finds j,
              ap (find j) (chain-empty {V = V} c (hash c j)),
              last_all-eq-find_last j D.buckets h (alone j),
              find_last-eq-find j (chain D.buckets h),
              v.placed j h,
              get_node-find v j,
              find_nil V j,
            ))
