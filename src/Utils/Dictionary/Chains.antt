-- ===== src/Utils/Dictionary/Chains.antt =====
-- Chains of nodes: how often a key stands on one, and what is found.
use hybrid_databases.Base.{
  ℕ, ◌+◌, ◌-◌, ◌≤◌, ◌≡◌, ◌≢◌, refl, arith, Option, none, some, List, [], ◌∷◌, length, ◌==◌,
  if◌then◌else◌, Bool-cases, inl, inr,
}
use hybrid_databases.Utils.Dictionary.{find, unlink}

module _ {V : Type 0} where
  unfoldable pub count : ℕ → List (ℕ × V) → ℕ
  count key [] = 0
  count key ((k, v) ∷ nodes) = (if k == key then 1 else 0) + count key nodes

  unfoldable pub or_else : Option V → Option V → Option V
  or_else none y = y
  or_else (some x) y = some x

  -- What is found last on a chain, which is what comes to stand first when its nodes are moved.
  unfoldable pub find_last : ℕ → List (ℕ × V) → Option V
  find_last key [] = none
  find_last key ((k, v) ∷ nodes) = or_else (find_last key nodes) (if k == key then some v else none)

  pub find-none : (key : ℕ) (nodes : List (ℕ × V)) → count key nodes ≡ 0 → find key nodes ≡ none
  unfolding count find
  find-none key [] h = refl
  find-none key ((k, v) ∷ nodes) h = ground (arith, find-none key nodes)

  pub find-some :
      (key : ℕ) (nodes : List (ℕ × V)) → 1 ≤ count key nodes → (v : V) × (find key nodes ≡ some v)
  unfolding count find
  find-some key [] h = elim h [ ]
  find-some key ((k, v) ∷ nodes) h = elim (Bool-cases (k == key)) [
    | inl e ↦ (v, rw e)
    | inr e ↦ rw e (find-some key nodes (ground arith))
  ]

  pub find_last-none :
      (key : ℕ) (nodes : List (ℕ × V)) → count key nodes ≡ 0 → find_last key nodes ≡ none
  unfolding count find_last or_else
  find_last-none key [] h = refl
  find_last-none key ((k, v) ∷ nodes) h = ground (arith, find_last-none key nodes)

  -- On a chain without repeated keys the first is the last.
  pub find_last-eq-find :
      (key : ℕ) (nodes : List (ℕ × V)) → count key nodes ≤ 1 → find_last key nodes ≡ find key nodes
  unfolding count find_last find or_else
  find_last-eq-find key [] h = refl
  find_last-eq-find key ((k, v) ∷ nodes) h =
      ground (arith, find_last-none key nodes, find_last-eq-find key nodes)

  pub count-unlink :
      (key j : ℕ) (nodes : List (ℕ × V))
      → count j (unlink key nodes) ≡ (if key == j then count j nodes - 1 else count j nodes)
  unfolding count unlink
  count-unlink key j [] = ground arith
  count-unlink key j ((k, v) ∷ nodes) = ground (arith, count-unlink key j nodes)

  pub find-unlink_ne :
      (key j : ℕ) (nodes : List (ℕ × V)) → key ≢ j → find j (unlink key nodes) ≡ find j nodes
  unfolding find unlink
  find-unlink_ne key j [] h = refl
  find-unlink_ne key j ((k, v) ∷ nodes) h = ground (arith, find-unlink_ne key j nodes h)

  pub length-unlink :
      (key : ℕ) (nodes : List (ℕ × V))
      → 1 ≤ count key nodes
      → length (unlink key nodes) + 1 ≡ length nodes
  unfolding count unlink
  length-unlink key [] h = elim h [ ]
  length-unlink key ((k, v) ∷ nodes) h = ground (arith, length-unlink key nodes)
