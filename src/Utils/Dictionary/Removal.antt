-- ===== src/Utils/Dictionary/Removal.antt =====
-- What removing a key does to the map of the dictionary.
use hybrid_databases.Base.{
  ℕ, ◌+◌, ◌-◌, ◌*◌, ◌≤◌, ◌<◌, ◌≡◌, ◌≢◌, sym, ap, ◌∙◌, arith, Bool, true, none, some, [], length,
  ◌==◌, ltb, if◌then◌else◌, get_or, set, length-set, get_or-set_self, get_or-set_ne, inl, inr,
  Bool-cases, Option-cases, subst,
}
use native.Mathlib.Decide.{ℕ_discrete}
use hybrid_databases.Utils.Dictionary.{Dictionary, hash, find, unlink, get_node, contains, remove}
use hybrid_databases.Utils.Dictionary.Chains.{
  count, find-none, count-unlink, find-unlink_ne, length-unlink,
}
use hybrid_databases.Utils.Dictionary.Buckets.{Chain, chain, total, hash-lt, total-set}
use hybrid_databases.Utils.Dictionary.Laws.{IsValid, get_node-find}
use hybrid_databases.Utils.Dictionary.Changes.{
  Same, stay, shrink-Same, contains-some, contains-none,
}

-- What a removal leaves, where `done` tells whether the key was there.
pub record Removed {V : Type 0} (items key : ℕ) (D D' : Dictionary V) (done : Bool) : Type 0 where
  pub valid : IsValid items 0 D'
  pub told : done ≡ contains D key
  pub got : (j : ℕ) → get_node D' j ≡ (if key == j then none else get_node D j)
  pub counted : D'.size + (if done then 1 else 0) ≡ D.size

module _ {V : Type 0} {items : ℕ} {D : Dictionary V} (v : IsValid items 0 D) where
  module _ (key : ℕ) (value : V) (present : get_node D key ≡ some value) where
    abbrev cut : Dictionary V
    cut =
        let i = hash D.capacity key in
        record D {
          buckets = set D.buckets i (unlink key (get_or D.buckets i []));
          free_nodes = D.free_nodes + 1;
          size = D.size - 1;
        }

    once : count key (chain D.buckets (hash D.capacity key)) ≡ 1
    once =
        let c = chain D.buckets (hash D.capacity key) in
        let e : find key c ≡ some value = sym (get_node-find v key) ∙ present in
        ground (arith, find-none key c, v.placed key (hash D.capacity key))

    positive : 0 < D.capacity
    positive = unfold get_node in ground arith

    within : hash D.capacity key < length D.buckets
    within = omega (arith, hash-lt D.capacity key positive, v.fits)

    abbrev rest : Chain V
    rest = unlink key (chain D.buckets (hash D.capacity key))

    rest_lem : length rest + 1 ≡ length (chain D.buckets (hash D.capacity key))
    rest_lem = length-unlink key _ (omega (arith, once))

    cut-total : total cut.buckets + 1 ≡ total D.buckets
    cut-total = omega (arith, rest_lem, total-set D.buckets (hash D.capacity key) rest within)

    chain-cut_ne : (i : ℕ) → hash D.capacity key ≢ i → chain cut.buckets i ≡ chain D.buckets i
    chain-cut_ne i ne = get_or-set_ne D.buckets (hash D.capacity key) i rest [] ne

    chain-cut_self : chain cut.buckets (hash D.capacity key) ≡ rest
    chain-cut_self = get_or-set_self D.buckets (hash D.capacity key) rest [] within

    cut-placed :
        (j i : ℕ) → count j (chain cut.buckets i) ≤ (if hash D.capacity j == i then 1 else 0)
    cut-placed j i = elim (ℕ_discrete (hash D.capacity key) i) [
      | yes e ↦
          subst (λ x. count j (chain cut.buckets x) ≤ (if hash D.capacity j == x then 1 else 0)) e
            (ground (
              arith,
              ap (count j) chain-cut_self,
              count-unlink key j (chain D.buckets (hash D.capacity key)),
              v.placed j (hash D.capacity key),
            ))
      | no ne ↦ omega (arith, ap (count j) (chain-cut_ne i ne), v.placed j i)
    ]

    cut-IsValid : IsValid items 0 cut
    cut-IsValid = record {
      fits = length-set D.buckets _ _ ∙ v.fits;
      cap = v.cap;
      known = v.known;
      placed = cut-placed;
      sum = omega (arith, cut-total, v.sum);
      nodes = omega (arith, cut-total, v.sum, v.nodes);
    }

    get_node-cut_self : get_node cut key ≡ none
    get_node-cut_self =
        get_node-find cut-IsValid key
        ∙ find-none key _ (
            ground (
              arith,
              ap (count key) chain-cut_self,
              count-unlink key key (chain D.buckets (hash D.capacity key)),
              once,
            ))

    get_node-cut_ne : (j : ℕ) → key ≢ j → get_node cut j ≡ get_node D j
    get_node-cut_ne j ne =
        get_node-find cut-IsValid j
        ∙ elim (ℕ_discrete (hash D.capacity key) (hash D.capacity j)) [
          | yes e ↦
              subst (λ x. find j (chain cut.buckets x) ≡ find j (chain D.buckets x)) e
                (ap (find j) chain-cut_self ∙ find-unlink_ne key j _ ne)
          | no d ↦ ap (find j) (chain-cut_ne (hash D.capacity j) d)
        ]
        ∙ sym (get_node-find v j)

    get_node-cut : (j : ℕ) → get_node cut j ≡ (if key == j then none else get_node D j)
    get_node-cut j = elim (ℕ_discrete key j) [
      | yes e ↦
          subst (λ x. get_node cut x ≡ (if key == x then none else get_node D x)) e
            (ground (arith, get_node-cut_self))
      | no ne ↦ ground (arith, get_node-cut_ne j ne)
    ]

    cut-Removed : (D' : Dictionary V) → Same items 0 cut D' → Removed items key D D' true
    cut-Removed D' s = record {
      valid = s.valid;
      told = sym (contains-some v key value present);
      got = λ j. s.same j ∙ get_node-cut j;
      counted = omega (arith, s.equal_size, cut-total, v.sum);
    }

  -- A removal takes the key out if it is there, and tells so, changes no other key, and keeps the
  -- dictionary valid.
  pub remove_lem : (key : ℕ) → Removed items key D (remove key D).0 (remove key D).1
  unfolding remove
  remove_lem key = elim (Option-cases (get_node D key)) [
    | inl e ↦ rw (contains-none v key e) (record {
      valid = v;
      told = sym (contains-none v key e);
      got = λ j. elim (ℕ_discrete key j) [
        | yes q ↦
            subst (λ x. get_node D x ≡ (if key == x then none else get_node D x)) q
              (ground (arith, e))
        | no ne ↦ ground arith
      ];
      counted = omega arith;
    })
    | inr (x, e) ↦
        rw (contains-some v key x e) (elim (Bool-cases (ltb ((D.size - 1) * 4) D.capacity)) [
          | inl t ↦ rw t (cut-Removed key x e _ (shrink-Same (cut-IsValid key x e)))
          | inr t ↦ rw t (cut-Removed key x e _ (stay (cut-IsValid key x e)))
        ])
  ]
