-- ===== src/Utils/Stack/Contents.antt =====
-- The stack in one array is a list of items, whatever the array's size.
use hybrid_databases.Base.{
  ℕ, zero, suc, ◌+◌, ◌-◌, ◌*◌, ◌/◌, ◌≡◌, ◌≤◌, ◌<◌, refl, sym, ap, ◌∙◌, arith, false, List, [], ◌∷◌,
  ◌++◌, length, ltb, ◌==◌, ◌&&◌, set, take, replicate, length-set, length-append, length-replicate,
  Bool-cases, inl, inr,
}
use hybrid_databases.Utils.FastStack.Contents.{below, below-set, below-get_or}
use hybrid_databases.Utils.Stack.{
  Stack, stack_expand, stack_shrink, stack_push, stack_empty, stack_pop, min_size,
}

module _ {ℓ} {A : Type ℓ} where
  -- The items, the top one first.
  abbrev pub items : Stack A → List A
  items s = below s.ptr s.cells []

  -- The pointer stands inside of the array, or at its end.
  unfoldable pub IsValid : Stack A → Type 0
  IsValid s = s.ptr ≤ length s.cells

  below-append :
      (n : ℕ) (xs ys rest : List A) → n ≤ length xs → below n (xs ++ ys) rest ≡ below n xs rest
  unfolding below
  below-append zero xs ys rest h = refl
  below-append (suc n) [] ys rest h = elim h [ ]
  below-append (suc n) (x ∷ xs) ys rest h = below-append n xs ys (x ∷ rest) (omega arith)

  below-take : (n k : ℕ) (xs rest : List A) → n ≤ k → below n (take k xs) rest ≡ below n xs rest
  unfolding below
  below-take zero k xs rest h = refl
  below-take (suc n) zero xs rest h = elim h [ ]
  below-take (suc n) (suc k) [] rest h = refl
  below-take (suc n) (suc k) (x ∷ xs) rest h = below-take n k xs (x ∷ rest) (omega arith)

  length-take_le : (k : ℕ) (xs : List A) → k ≤ length xs → length (take k xs) ≡ k
  length-take_le zero xs h = omega arith
  length-take_le (suc k) [] h = elim h [ ]
  length-take_le (suc k) (x ∷ xs) h = omega (arith, length-take_le k xs (omega arith))

module _ {ℓ} {A : Type ℓ} (fresh : A) where
  pushed :
      (value : A) (cells : List A) (p : ℕ)
      → p < length cells
      → below (p + 1) (set cells p value) [] ≡ value ∷ below p cells []
  pushed value cells p h =
      let d : p + 1 ≡ suc p = omega arith in rw d (below-set p cells [] value h)

  -- A push puts its item on top, in place or in a larger array.
  pub stack_push_lem :
      (value : A) (s : Stack A)
      → IsValid s
      → (items (stack_push fresh value s) ≡ value ∷ items s) × IsValid (stack_push fresh value s)
  unfolding stack_push stack_expand IsValid
  stack_push_lem value s v = elim (Bool-cases (s.ptr == length s.cells)) [
    | inl e ↦
        let big = s.cells ++ replicate (length s.cells + min_size) fresh in
        let l : length big ≡ length s.cells + (length s.cells + min_size) = omega (
          arith,
          length-append s.cells (replicate (length s.cells + min_size) fresh),
          length-replicate (length s.cells + min_size) fresh,
        ) in
        rw e (
          pushed value big s.ptr (ground (arith, l))
              ∙ ap (λ t. value ∷ t) (below-append s.ptr s.cells _ [] v),
          ground (arith, l, length-set big s.ptr value),
        )
    | inr e ↦
        rw e (
          pushed value s.cells s.ptr (ground arith),
          ground (arith, length-set s.cells s.ptr value),
        )
  ]

  -- A pop of a stack that is not empty returns its top item and takes it, also when it shrinks the
  -- array.
  pub stack_pop_lem :
      (s : Stack A)
      → IsValid s
      → stack_empty fresh s ≡ false
      → (items s ≡ (stack_pop fresh s).0 ∷ items (stack_pop fresh s).1)
        × IsValid (stack_pop fresh s).1
  unfolding stack_pop stack_shrink stack_empty IsValid
  stack_pop_lem s v e =
      elim (Bool-cases (ltb (2 * s.ptr) (length s.cells) && ltb (2 * min_size) (length s.cells))) [
        | inl t ↦
            let k = (length s.cells + 1) / 2 in
            let b : s.ptr ≤ k = ground arith in
            let l : length (take k s.cells) ≡ k = length-take_le k s.cells (ground arith) in
            let d : s.ptr ≡ suc (s.ptr - 1) = ground arith in
            rw t (
              sym (below-take s.ptr k s.cells [] b)
                  ∙ ap (λ n. below n (take k s.cells) []) d
                  ∙ below-get_or (s.ptr - 1) (take k s.cells) [] fresh (omega (arith, l)),
              omega (arith, l),
            )
        | inr t ↦
            let d : s.ptr ≡ suc (s.ptr - 1) = ground arith in
            rw t (
              ap (λ n. below n s.cells []) d
                  ∙ below-get_or (s.ptr - 1) s.cells [] fresh (omega arith),
              omega arith,
            )
      ]
