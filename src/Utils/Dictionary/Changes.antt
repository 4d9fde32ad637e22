-- ===== src/Utils/Dictionary/Changes.antt =====
-- What inserting a key does to the map of the dictionary.
use hybrid_databases.Base.{
  ℕ, suc, ◌+◌, ◌-◌, ◌*◌, ◌≤◌, ◌<◌, ◌≡◌, refl, sym, ap, ◌∙◌, arith, Bool, true, false, not, Option,
  none, some, ◌==◌, ◌&&◌, ltb, if◌then◌else◌, inl, inr, Bool-cases, Option-cases,
}
use native.Mathlib.Decide.{ℕ_discrete}
use hybrid_databases.Utils.Dictionary.{
  Dictionary, hash, capacity_at, find, push_node, get_node, contains, rebuild, grow, shrink,
  take_node, generic_insert, insert,
}
use hybrid_databases.Utils.Dictionary.Chains.{count, find-some}
use hybrid_databases.Utils.Dictionary.Buckets.{
  chain, count-push_node, find-push_node, length-push_node, total-push_node,
}
use hybrid_databases.Utils.Dictionary.Laws.{
  last_index, capacity_at_pos, capacity_at-zero, IsValid, get_node-find, rebuild-IsValid,
  get_node-rebuild,
}

capacity_at_end : capacity_at 60 ≡ 0
unfolding capacity_at
capacity_at_end = refl

-- A dictionary that is valid and holds the same map.
pub record Same {V : Type 0} (items taken : ℕ) (D D' : Dictionary V) : Type 0 where
  pub valid : IsValid items taken D'
  pub same : (j : ℕ) → get_node D' j ≡ get_node D j
  pub equal_size : D'.size ≡ D.size

module _ {V : Type 0} {items taken : ℕ} {D : Dictionary V} (v : IsValid items taken D) where
  rebuild-Same : (i : ℕ) → 0 < i → i ≤ last_index → Same items taken D (rebuild D i)
  rebuild-Same i l h = record {
    valid = rebuild-IsValid v i l h;
    same = get_node-rebuild v i l h;
    equal_size = unfold rebuild in refl;
  }

  pub stay : Same items taken D D
  stay = record { valid = v; same = λ j. refl; equal_size = refl }

  pub shrink-Same : Same items taken D (shrink D)
  unfolding shrink
  shrink-Same = elim (Bool-cases (capacity_at (D.capacity_index - 1) == 0)) [
    | inl e ↦ rw e stay
    | inr e ↦ rw e (
        rebuild-Same (D.capacity_index - 1)
          (elim (ℕ_discrete (D.capacity_index - 1) 0) [
            | yes z ↦ absurd (ground (arith, ap capacity_at z, capacity_at-zero))
            | no z ↦ omega arith
          ])
          (omega (arith, v.known)))
  ]

  abbrev resized : Option (Dictionary V)
  resized = if ltb D.capacity (D.size * 2 + 1) then grow D else some D

  -- Before the last entry of the table there is room for one more node.
  room :
      D.capacity_index < last_index
      → (D' : Dictionary V) × (resized ≡ some D') × Same items taken D D' × (0 < D'.capacity)
  unfolding grow
  room h = elim (Bool-cases (ltb D.capacity (D.size * 2 + 1))) [
    | inl e ↦
        let p : 0 < capacity_at (D.capacity_index + 1) =
          capacity_at_pos (D.capacity_index + 1) (omega arith) (omega arith) in
        let q : (capacity_at (D.capacity_index + 1) == 0) ≡ false = ground arith in
        (
          rebuild D (D.capacity_index + 1),
          rw e (rw q refl),
          rebuild-Same (D.capacity_index + 1) (omega arith) (omega arith),
          unfold rebuild in p,
        )
    | inr e ↦ (D, rw e refl, stay, ground arith)
  ]

  pub contains-some : (j : ℕ) (x : V) → get_node D j ≡ some x → contains D j ≡ true
  contains-some j x e = ap (λ o. elim o [ none ↦ false | some y ↦ true ]) e

  pub contains-none : (j : ℕ) → get_node D j ≡ none → contains D j ≡ false
  contains-none j e = ap (λ o. elim o [ none ↦ false | some y ↦ true ]) e

-- What an insertion leaves, where `done` tells whether the key was new.
pub record Inserted {V : Type 0} (items taken key : ℕ) (value : V) (D D' : Dictionary V)
    (done : Bool) : Type 0 where
  pub valid : IsValid items taken D'
  pub told : done ≡ not (contains D key)
  pub got : (j : ℕ) → get_node D' j ≡ (if done && (key == j) then some value else get_node D j)
  pub counted : D'.size ≡ D.size + (if done then 1 else 0)

module _ {V : Type 0} {items taken : ℕ} {D : Dictionary V} (v : IsValid items (suc taken) D) where
  module _ (key : ℕ) (value : V) (new : get_node D key ≡ none) (positive : 0 < D.capacity) where
    abbrev pushed : Dictionary V
    pushed = record D { buckets = push_node D.capacity (key, value) D.buckets; size = D.size + 1 }

    absent : count key (chain D.buckets (hash D.capacity key)) ≡ 0
    absent =
        let c = chain D.buckets (hash D.capacity key) in
        let e : find key c ≡ none = sym (get_node-find v key) ∙ new in
        ground (arith, find-some key c)

    pushed-IsValid : IsValid items taken pushed
    pushed-IsValid = record {
      fits = length-push_node D.capacity (key, value) D.buckets ∙ v.fits;
      cap = v.cap;
      known = v.known;
      placed = λ j i. grind (
        arith,
        count-push_node D.capacity positive key value D.buckets j i v.fits,
        v.placed j i,
        absent,
      );
      sum = omega (arith, total-push_node D.capacity positive (key, value) D.buckets v.fits, v.sum);
      nodes = omega (arith, v.nodes);
    }

    get_node-pushed : (j : ℕ) → get_node pushed j ≡ (if key == j then some value else get_node D j)
    get_node-pushed j =
        get_node-find pushed-IsValid j
        ∙ find-push_node D.capacity positive key value D.buckets j v.fits
        ∙ ap (λ o. if key == j then some value else o) (sym (get_node-find v j))

-- Behind a resize the map is the old one.
Inserted-after :
    {V : Type 0} {items taken key : ℕ} {value : V} {D D1 D' : Dictionary V}
    → Same items (suc taken) D D1
    → contains D key ≡ false
    → Inserted items taken key value D1 D' true
    → Inserted items taken key value D D' true
Inserted-after {key = key} {value = value} s fresh i = record {
  valid = i.valid;
  told = rw fresh refl;
  got = λ j. i.got j ∙ ap (λ o. if key == j then some value else o) (s.same j);
  counted = ground (arith, i.counted, s.equal_size);
}

module _ {V : Type 0} {items taken : ℕ} {D : Dictionary V} (v : IsValid items (suc taken) D) where
  generic_insert_lem :
      (key : ℕ) (value : V)
      → D.capacity_index < last_index
      → (D' : Dictionary V) × (done : Bool) × (generic_insert key value D ≡ some (D', done))
        × Inserted items taken key value D D' done
  unfolding generic_insert
  generic_insert_lem key value h = elim (Option-cases (get_node D key)) [
    | inl e ↦
        let f = contains-none v key e in
        let (D1, r, s, p) = room v h in
        let absent1 = s.same key ∙ e in
        (
          pushed s.valid key value absent1 p,
          true,
          rw f (rw r refl),
          Inserted-after s f (record {
            valid = pushed-IsValid s.valid key value absent1 p;
            told = rw (contains-none s.valid key absent1) refl;
            got = get_node-pushed s.valid key value absent1 p;
            counted = refl;
          }),
        )
    | inr (x, e) ↦
        let f = contains-some v key x e in
        (
          record D { free_nodes = D.free_nodes + 1 },
          false,
          rw f refl,
          record {
            valid = record {
              fits = v.fits;
              cap = v.cap;
              known = v.known;
              placed = v.placed;
              sum = v.sum;
              nodes = omega (arith, v.nodes);
            };
            told = rw f refl;
            got = λ j. unfold get_node in refl;
            counted = omega arith;
          },
        )
  ]

module _ {V : Type 0} {items taken : ℕ} {D : Dictionary V} (v : IsValid items taken D) where
  take_node_lem :
      0 < items
      → (D' : Dictionary V) × (take_node items D ≡ some D')
        × IsValid items (suc taken) D'
        × ((j : ℕ) → get_node D' j ≡ get_node D j)
        × (D'.size ≡ D.size)
        × (D'.capacity_index ≡ D.capacity_index)
  unfolding take_node get_node
  take_node_lem h = elim (Bool-cases (D.free_nodes == 0)) [
    | inl e ↦ (
      record D { pages = D.pages + 1; free_nodes = items - 1 },
      ground arith,
      record {
        fits = v.fits;
        cap = v.cap;
        known = v.known;
        placed = v.placed;
        sum = v.sum;
        nodes = grind (arith, v.nodes);
      },
      (λ j. refl),
      refl,
      refl,
    )
    | inr e ↦ (
      record D { free_nodes = D.free_nodes - 1 },
      rw e refl,
      record {
        fits = v.fits;
        cap = v.cap;
        known = v.known;
        placed = v.placed;
        sum = v.sum;
        nodes = ground (arith, v.nodes);
      },
      (λ j. refl),
      refl,
      refl,
    )
  ]

module _ {V : Type 0} {items : ℕ} {D : Dictionary V} (v : IsValid items 0 D) where
  -- While the table can still grow, an insertion succeeds: it tells whether the key was new, enters
  -- it then with its value, changes no other key, and keeps the dictionary valid.
  pub insert_lem :
      (key : ℕ) (value : V)
      → 0 < items
      → D.capacity_index < last_index
      → (D' : Dictionary V) × (done : Bool) × (insert items key value D ≡ some (D', done))
        × Inserted items 0 key value D D' done
  unfolding insert
  insert_lem key value full h =
      let (D1, e, v1, same, size1, index1) = take_node_lem v full in
      let (D', done, e', i) = generic_insert_lem v1 key value (omega arith) in
      (
        D',
        done,
        rw e e',
        record {
          valid = i.valid;
          told = i.told ∙ ap (λ o. not (elim o [ none ↦ false | some y ↦ true ])) (same key);
          got = λ j. i.got j ∙ ap (λ o. if done && (key == j) then some value else o) (same j);
          counted = i.counted ∙ ap (λ n. n + (if done then 1 else 0)) size1;
        },
      )
