-- ===== src/Allocators/Nodes/Indices.antt =====
-- Numbers in lists: the pages of blocks and the indices of free nodes.
use hybrid_databases.Base.{
  ℕ, zero, suc, ◌≤◌, ◌<◌, ◌≡◌, ◌≢◌, refl, arith, true, false, some, inl, inr, List, [], ◌∷◌, ◌==◌,
  ltb, if◌then◌else◌, Bool-cases, Option-cases,
}
use hybrid_databases.Base.Members.{has, Distinct}
use hybrid_databases.Allocators.Nodes.{remove_block, last_block, pushed}

pub has-remove_ne : (a b : ℕ) (xs : List ℕ) → a ≢ b → has a (remove_block b xs) ≡ has a xs
unfolding remove_block
has-remove_ne a b [] h = refl
has-remove_ne a b (x ∷ xs) h = ground (arith, has-remove_ne a b xs h)

pub has-remove_self : (b : ℕ) (xs : List ℕ) → Distinct xs → has b (remove_block b xs) ≡ false
unfolding remove_block
has-remove_self b [] d = refl
has-remove_self b (x ∷ xs) d = ground (arith, has-remove_self b xs d.1)

pub Distinct-remove : (b : ℕ) (xs : List ℕ) → Distinct xs → Distinct (remove_block b xs)
unfolding remove_block
Distinct-remove b [] d = tt
Distinct-remove b (x ∷ xs) d = elim (Bool-cases (x == b)) [
  | inl same ↦ rw (same, if◌then◌else◌) d.1
  | inr other ↦
      let ne : x ≢ b = λ e. ground arith in
      rw (other, if◌then◌else◌) (ground (arith, has-remove_ne x b xs ne), Distinct-remove b xs d.1)
]

pub last_block-has : (xs : List ℕ) {b : ℕ} → last_block xs ≡ some b → has b xs ≡ true
unfolding last_block
last_block-has [] h = cc
last_block-has (x ∷ xs) {b} h = elim (Option-cases (last_block xs)) [
  | inl alone ↦ ground (arith, rw (alone, last_block) at h)
  | inr (c, e) ↦ ground (arith, last_block-has xs {b = c} e)
]

-- How many of the first `n` indices are not in a list
unfoldable pub count : ℕ → List ℕ → ℕ
count zero free = 0
count (suc i) free = if has i free then count i free else suc (count i free)

count-cons_above : (n i : ℕ) (free : List ℕ) → n ≤ i → count n (i ∷ free) ≡ count n free
unfolding count
count-cons_above zero i free h = refl
count-cons_above (suc k) i free h = ground (arith, count-cons_above k i free (omega arith))

pub count-cons :
    (n i : ℕ) (free : List ℕ) → i < n → has i free ≡ false → count n free ≡ suc (count n (i ∷ free))
unfolding count
count-cons zero i free h f = elim h [ ]
count-cons (suc k) i free h f = elim (Bool-cases (k == i)) [
  | inl same ↦ ground (arith, count-cons_above k i free (ground arith))
  | inr other ↦ ground (arith, count-cons k i free (ground arith) f)
]

pub count-le : (n : ℕ) (free : List ℕ) → count n free ≤ n
unfolding count
count-le zero free = omega arith
count-le (suc k) free = ground (arith, count-le k free)

pub count-zero : (n j : ℕ) (free : List ℕ) → count n free ≡ 0 → j < n → has j free ≡ true
unfolding count
count-zero zero j free e h = elim h [ ]
count-zero (suc k) j free e h = elim (Bool-cases (has k free)) [
  | inl there ↦ elim (Bool-cases (j == k)) [
    | inl same ↦ ground arith
    | inr other ↦ count-zero k j free (ground arith) (ground arith)
  ]
  | inr missing ↦ absurd (ground arith)
]

pub has-pushed : (i n : ℕ) → has i (pushed n) ≡ ltb i n
unfolding pushed
has-pushed i zero = ground arith
has-pushed i (suc n) = ground (arith, has-pushed i n)

count-pushed : (k n : ℕ) → k ≤ n → count k (pushed n) ≡ 0
unfolding count
count-pushed zero n h = refl
count-pushed (suc k) n h = ground (arith, has-pushed k n, count-pushed k n (omega arith))

pub count-pushed-suc : (n : ℕ) → count (suc n) (pushed n) ≡ 1
unfolding count
count-pushed-suc n = ground (arith, has-pushed n n, count-pushed n n (omega arith))

-- Distinct indices below `n`
abbrev pub AreIndices : ℕ → List ℕ → Type 0
AreIndices n [] = Unit
AreIndices n (i ∷ free) = (i < n) × (has i free ≡ false) × AreIndices n free

pub pushed-AreIndices : (k n : ℕ) → k ≤ n → AreIndices n (pushed k)
unfolding pushed
pushed-AreIndices zero n h = tt
pushed-AreIndices (suc k) n h =
    (omega arith, ground (arith, has-pushed k k), pushed-AreIndices k n (omega arith))
