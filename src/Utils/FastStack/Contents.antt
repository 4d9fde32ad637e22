-- ===== src/Utils/FastStack/Contents.antt =====
-- The stack in blocks is a list of items: what each operation does to that list.
use hybrid_databases.Base.{
  ℕ, zero, suc, ◌+◌, ◌≡◌, ◌≤◌, ◌<◌, refl, sym, ap, ◌∙◌, arith, true, false, List, [], ◌∷◌, length,
  ◌==◌, if◌then◌else◌, get_or, set, length-set, Bool-cases, ◌⊎◌, inl, inr,
}
use hybrid_databases.Utils.FastStack.{FastStack, fstack_init, fstack_expand, store, fstack_push}

module _ {ℓ} {A : Type ℓ} where
  -- The first `n` items of an array, the last of them first, above `rest`.
  unfoldable pub below : ℕ → List A → List A → List A
  below zero xs rest = rest
  below (suc n) [] rest = rest
  below (suc n) (x ∷ xs) rest = below n xs (x ∷ rest)

  abbrev pub stack : ℕ → List (List A) → ℕ → FastStack A
  stack n bs p = record { block_count = n; blocks = bs; ptr = p }

  -- All items of full blocks, and those of blocks whose first is filled up to `ptr`.
  unfoldable pub flat : ℕ → List (List A) → List A
  flat size [] = []
  flat size (b ∷ bs) = below size b (flat size bs)

  unfoldable pub filled : ℕ → ℕ → List (List A) → List A
  filled size ptr [] = []
  filled size ptr (b ∷ bs) = below ptr b (flat size bs)

  -- The items of the stack, the top one first.
  unfoldable pub items : ℕ → FastStack A → List A
  items size s = if s.block_count == 0 then [] else filled size s.ptr s.blocks

  unfoldable pub AllSized : ℕ → List (List A) → Type 0
  AllSized size [] = Unit
  AllSized size (b ∷ bs) = (length b ≡ size) × AllSized size bs

  -- The blocks have their size; an empty stack keeps one block at most, and a stack that is not
  -- empty has its top in the last one.
  pub record IsValid (size : ℕ) (s : FastStack A) : Type 0 where
    pub sized : AllSized size s.blocks
    pub shape :
        ((s.block_count ≡ 0) × (length s.blocks ≤ 1) × (s.ptr ≡ size))
        ⊎ ((s.block_count ≡ length s.blocks) × (0 < s.block_count) × (0 < s.ptr) × (s.ptr ≤ size))

  pub below-set :
      (n : ℕ) (xs rest : List A) (v : A)
      → n < length xs
      → below (suc n) (set xs n v) rest ≡ v ∷ below n xs rest
  unfolding below
  below-set n [] rest v h = elim h [ ]
  below-set zero (x ∷ xs) rest v h = refl
  below-set (suc n) (x ∷ xs) rest v h = below-set n xs (x ∷ rest) v (omega arith)

  pub below-get_or :
      (n : ℕ) (xs rest : List A) (other : A)
      → n < length xs
      → below (suc n) xs rest ≡ get_or xs n other ∷ below n xs rest
  unfolding below
  below-get_or n [] rest other h = elim h [ ]
  below-get_or zero (x ∷ xs) rest other h = refl
  below-get_or (suc n) (x ∷ xs) rest other h = below-get_or n xs (x ∷ rest) other (omega arith)

  pub length-below :
      (n : ℕ) (xs rest : List A) → n ≤ length xs → length (below n xs rest) ≡ n + length rest
  unfolding below
  length-below zero xs rest h = omega arith
  length-below (suc n) [] rest h = elim h [ ]
  length-below (suc n) (x ∷ xs) rest h = omega (arith, length-below n xs (x ∷ rest) (omega arith))

module _ {ℓ} {A : Type ℓ} (size : ℕ) (positive : 0 < size) (page : List A)
    (fits : length page ≡ size) where
  pub fstack_init-IsValid : IsValid size (fstack_init size page)
  unfolding fstack_init AllSized
  fstack_init-IsValid = record { sized = tt; shape = inl (refl, omega arith, refl) }

  -- What a push does behind the expansion.
  store_lem :
      (x : A) (n p : ℕ) (b : List A) (r : List (List A))
      → 0 < n
      → n ≡ length (b ∷ r)
      → p < size
      → AllSized size (b ∷ r)
      → (items size (store size page x (stack n (b ∷ r) p)) ≡ x ∷ below p b (flat size r))
        × IsValid size (store size page x (stack n (b ∷ r) p))
  unfolding store items filled AllSized
  store_lem x n p b r h l q a =
      let e : (n == 0) ≡ false = ground arith in
      (
        let d : p + 1 ≡ suc p = omega arith in
            rw e (rw d (below-set p b (flat size r) x (omega (arith, a.0)))),
        record {
          sized = (length-set b p x ∙ a.0, a.1);
          shape = inr (l, h, omega arith, omega arith);
        },
      )

  abbrev pub Pushed : A → FastStack A → Type ℓ
  Pushed x s =
      (items size (fstack_push size page x s) ≡ x ∷ items size s)
      × IsValid size (fstack_push size page x s)

  push_empty :
      (x : A) (n p : ℕ) (bs : List (List A))
      → AllSized size bs
      → n ≡ 0
      → length bs ≤ 1
      → p ≡ size
      → Pushed x (stack n bs p)
  unfolding fstack_push fstack_expand items AllSized below flat filled
  push_empty x zero p [] a z l e =
      let t : (p == size) ≡ true = ground (arith, e) in
      rw t (store_lem x 1 0 page [] (omega arith) refl positive (fits, tt))
  push_empty x zero p (b ∷ []) a z l e =
      let t : (p == size) ≡ true = ground (arith, e) in
      rw t (store_lem x 1 0 b [] (omega arith) refl positive a)
  push_empty x zero p (b ∷ c ∷ bs) a z l e = absurd (omega arith)
  push_empty x (suc n) p bs a z l e = absurd (omega arith)

  push_filled :
      (x : A) (n p : ℕ) (bs : List (List A))
      → AllSized size bs
      → n ≡ length bs
      → 0 < n
      → 0 < p
      → p ≤ size
      → Pushed x (stack n bs p)
  unfolding fstack_push fstack_expand items AllSized below flat filled
  push_filled x n p [] a l h q u = absurd (omega arith)
  push_filled x n p (b ∷ bs) a l h q u = elim (Bool-cases (p == size)) [
    | inl t ↦ rw t (
        let g : (n + 1 == 1) ≡ false = ground arith in
        let f : (n == 0) ≡ false = ground arith in
        let d : p ≡ size = ground arith in
        rw g (
          rw f (
            let r =
              store_lem x (n + 1) 0 page (b ∷ bs) (omega arith) (omega arith) positive (fits, a) in
            (r.0 ∙ ap (λ k. x ∷ below k b (flat size bs)) (sym d), r.1))))
    | inr t ↦ rw t (
        let f : (n == 0) ≡ false = ground arith in
        let d : p < size = ground arith in rw f (store_lem x n p b bs h l d a))
  ]

  -- A push puts its item on top, and keeps the stack valid.
  pub fstack_push_lem : (x : A) (s : FastStack A) → IsValid size s → Pushed x s
  fstack_push_lem x s v = elim v.shape [
    | inl (z, l, e) ↦ push_empty x s.block_count s.ptr s.blocks v.sized z l e
    | inr (l, h, q, u) ↦ push_filled x s.block_count s.ptr s.blocks v.sized l h q u
  ]
