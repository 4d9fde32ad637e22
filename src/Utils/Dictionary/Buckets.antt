-- ===== src/Utils/Dictionary/Buckets.antt =====
-- Nodes in their buckets, and moving all of them to a new table.
use hybrid_databases.Base.{
  ℕ, zero, suc, ◌+◌, ◌<◌, ◌≡◌, ◌≢◌, refl, ◌∙◌, arith, Option, none, some, List, [], ◌∷◌, length,
  ◌==◌, if◌then◌else◌, get_or, set, replicate, length-set, get_or-set_self, get_or-set_ne,
}
use hybrid_databases.Utils.Dictionary.{hash, find, push_node, rehash_chain, rehash}
use hybrid_databases.Utils.Dictionary.Chains.{count, or_else, find_last, find_last-none}

pub hash-lt : (capacity key : ℕ) → 0 < capacity → hash capacity key < capacity
unfolding hash
hash-lt capacity key h = grind arith

abbrev pub Chain : Type 0 → Type 0
Chain V = List (ℕ × V)

module _ {V : Type 0} where
  abbrev pub chain : List (Chain V) → ℕ → Chain V
  chain buckets i = get_or buckets i []

  -- The nodes of all chains: how many, how often a key, and which is found last.
  unfoldable pub total : List (Chain V) → ℕ
  total [] = 0
  total (c ∷ cs) = length c + total cs

  pub count_all : ℕ → List (Chain V) → ℕ
  count_all key [] = 0
  count_all key (c ∷ cs) = count key c + count_all key cs

  pub last_all : ℕ → List (Chain V) → Option V
  last_all key [] = none
  last_all key (c ∷ cs) = or_else (last_all key cs) (find_last key c)

  pub total-set :
      (bs : List (Chain V)) (i : ℕ) (c : Chain V)
      → i < length bs
      → total (set bs i c) + length (chain bs i) ≡ total bs + length c
  unfolding total
  total-set [] i c h = elim h [ ]
  total-set (b ∷ bs) zero c h = omega arith
  total-set (b ∷ bs) (suc i) c h = omega (arith, total-set bs i c (omega arith))

  pub chain-empty : (n i : ℕ) → chain (replicate n []) i ≡ []
  chain-empty zero i = refl
  chain-empty (suc n) zero = refl
  chain-empty (suc n) (suc i) = chain-empty n i

  count_all-none :
      (key : ℕ) (bs : List (Chain V))
      → ((i : ℕ) → count key (chain bs i) ≡ 0)
      → count_all key bs ≡ 0
  unfolding count_all
  count_all-none key [] p = refl
  count_all-none key (b ∷ bs) p =
      let q : count key b ≡ 0 = p 0 in omega (arith, count_all-none key bs (λ i. p (suc i)))

  last_all-none :
      (key : ℕ) (bs : List (Chain V))
      → ((i : ℕ) → count key (chain bs i) ≡ 0)
      → last_all key bs ≡ none
  unfolding last_all or_else
  last_all-none key [] p = refl
  last_all-none key (b ∷ bs) p =
      let q : count key b ≡ 0 = p 0 in
      ground (arith, last_all-none key bs (λ i. p (suc i)), find_last-none key b q)

  -- A key that stands on one chain only is counted, and found, there.
  pub count_all-eq-count :
      (key : ℕ) (bs : List (Chain V)) (h : ℕ)
      → ((i : ℕ) → i ≢ h → count key (chain bs i) ≡ 0)
      → count_all key bs ≡ count key (chain bs h)
  unfolding count_all
  count_all-eq-count key [] h p = unfold count in refl
  count_all-eq-count key (b ∷ bs) zero p =
      omega (arith, count_all-none key bs (λ i. p (suc i) (λ e. omega arith)))
  count_all-eq-count key (b ∷ bs) (suc h) p = omega (
    arith,
    p 0 (λ e. omega arith),
    count_all-eq-count key bs h (λ i ne. p (suc i) (λ e. ne (omega arith))),
  )

  pub last_all-eq-find_last :
      (key : ℕ) (bs : List (Chain V)) (h : ℕ)
      → ((i : ℕ) → i ≢ h → count key (chain bs i) ≡ 0)
      → last_all key bs ≡ find_last key (chain bs h)
  unfolding last_all or_else
  last_all-eq-find_last key [] h p = unfold find_last in refl
  last_all-eq-find_last key (b ∷ bs) zero p =
      ground (arith, last_all-none key bs (λ i. p (suc i) (λ e. omega arith)))
  last_all-eq-find_last key (b ∷ bs) (suc h) p =
      let q : count key b ≡ 0 = p 0 (λ e. omega arith) in
      ground (
        arith,
        find_last-none key b q,
        last_all-eq-find_last key bs h (λ i ne. p (suc i) (λ e. ne (omega arith))),
      )

  pub length-push_node :
      (capacity : ℕ) (node : ℕ × V) (bs : List (Chain V))
      → length (push_node capacity node bs) ≡ length bs
  unfolding push_node
  length-push_node capacity (k, v) bs = length-set bs _ _

pub total-empty : (V : Type 0) (n : ℕ) → total {V = V} (replicate n []) ≡ 0
unfolding total
total-empty V zero = refl
total-empty V (suc n) = omega (arith, total-empty V n)

module _ {V : Type 0} (capacity : ℕ) (positive : 0 < capacity) where
  pub total-push_node :
      (node : ℕ × V) (bs : List (Chain V))
      → length bs ≡ capacity
      → total (push_node capacity node bs) ≡ total bs + 1
  unfolding push_node
  total-push_node (k, v) bs l =
      let i = hash capacity k in
      omega (
        arith,
        hash-lt capacity k positive,
        total-set bs i ((k, v) ∷ chain bs i) (omega (arith, hash-lt capacity k positive)),
      )

  pub count-push_node :
      (k : ℕ) (v : V) (bs : List (Chain V)) (j i : ℕ)
      → length bs ≡ capacity
      → count j (chain (push_node capacity (k, v) bs) i)
        ≡ count j (chain bs i) + (if hash capacity k == i then (if k == j then 1 else 0) else 0)
  unfolding push_node count
  count-push_node k v bs j i l =
      let h = hash capacity k in
      ground (
        arith,
        hash-lt capacity k positive,
        get_or-set_self bs h ((k, v) ∷ chain bs h) [],
        get_or-set_ne bs h i ((k, v) ∷ chain bs h) [],
      )

  pub find-push_node :
      (k : ℕ) (v : V) (bs : List (Chain V)) (j : ℕ)
      → length bs ≡ capacity
      → find j (chain (push_node capacity (k, v) bs) (hash capacity j))
        ≡ (if k == j then some v else find j (chain bs (hash capacity j)))
  unfolding push_node find
  find-push_node k v bs j l =
      let h = hash capacity k in
      ground (
        arith,
        hash-lt capacity k positive,
        get_or-set_self bs h ((k, v) ∷ chain bs h) [],
        get_or-set_ne bs h (hash capacity j) ((k, v) ∷ chain bs h) [],
      )

  -- What moving nodes into a table leaves, where `counted` and `found` tell of these nodes.
  pub record Moved (n : ℕ) (counted : ℕ → ℕ) (found : ℕ → Option V) (bs bs' : List (Chain V))
      : Type 0 where
    pub fits : length bs' ≡ capacity
    pub sum : total bs' ≡ total bs + n
    pub counts :
        (j i : ℕ)
        → count j (chain bs' i)
          ≡ count j (chain bs i) + (if hash capacity j == i then counted j else 0)
    pub finds :
        (j : ℕ)
        → find j (chain bs' (hash capacity j))
          ≡ or_else (found j) (find j (chain bs (hash capacity j)))

  rehash_chain-Moved :
      (c : Chain V) (bs : List (Chain V))
      → length bs ≡ capacity
      → Moved (length c) (λ j. count j c) (λ j. find_last j c) bs (rehash_chain capacity c bs)
  unfolding rehash_chain count find_last or_else
  rehash_chain-Moved [] bs l = record {
    fits = l;
    sum = omega arith;
    counts = λ j i. ground arith;
    finds = λ j. refl;
  }
  rehash_chain-Moved ((k, v) ∷ c) bs l =
      let bs1 = push_node capacity (k, v) bs in
      let m = rehash_chain-Moved c bs1 (length-push_node capacity (k, v) bs ∙ l) in
      record {
        fits = m.fits;
        sum = omega (arith, m.sum, total-push_node (k, v) bs l);
        counts = λ j i. ground (arith, m.counts j i, count-push_node k v bs j i l);
        finds = λ j. ground (arith, m.finds j, find-push_node k v bs j l);
      }

  pub rehash-Moved :
      (cs bs : List (Chain V))
      → length bs ≡ capacity
      → Moved (total cs) (λ j. count_all j cs) (λ j. last_all j cs) bs (rehash capacity cs bs)
  unfolding rehash count_all last_all or_else total
  rehash-Moved [] bs l = record {
    fits = l;
    sum = omega arith;
    counts = λ j i. ground arith;
    finds = λ j. refl;
  }
  rehash-Moved (c ∷ cs) bs l =
      let m1 = rehash_chain-Moved c bs l in
      let m2 = rehash-Moved cs (rehash_chain capacity c bs) m1.fits in
      record {
        fits = m2.fits;
        sum = omega (arith, m1.sum, m2.sum);
        counts = λ j i. ground (arith, m1.counts j i, m2.counts j i);
        finds = λ j. ground (arith, m1.finds j, m2.finds j);
      }
