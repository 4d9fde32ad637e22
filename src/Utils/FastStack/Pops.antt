-- ===== src/Utils/FastStack/Pops.antt =====
-- The top of the stack in blocks, taking it, and its size.
use hybrid_databases.Base.{
  ℕ, zero, suc, ◌+◌, ◌-◌, ◌*◌, ◌≡◌, ◌≤◌, ◌<◌, refl, ap, ◌∙◌, arith, true, false, List, [], ◌∷◌,
  length, ◌==◌, inl, inr,
}
use hybrid_databases.Utils.FastStack.{
  FastStack, fstack_shrink, fstack_top, fstack_pop, fstack_empty, fstack_size,
}
use hybrid_databases.Utils.FastStack.Contents.{
  below, flat, filled, items, AllSized, IsValid, below-get_or, length-below, stack,
}

module _ {ℓ} {A : Type ℓ} (size : ℕ) (positive : 0 < size) (page : List A)
    (fits : length page ≡ size) where
  abbrev pub Popped : A → FastStack A → Type ℓ
  Popped other s =
      (items size s ≡ fstack_top size page other s ∷ items size (fstack_pop size page s))
      × IsValid size (fstack_pop size page s)

  -- Taking the last item of a block gives the block back.
  pop_block :
      (other : A) (n : ℕ) (b : List A) (bs : List (List A))
      → AllSized size (b ∷ bs)
      → n ≡ length (b ∷ bs)
      → Popped other (stack n (b ∷ bs) 1)
  unfolding fstack_pop fstack_shrink fstack_top items AllSized below flat filled
  pop_block other (suc zero) b [] a l = (
    below-get_or 0 b [] other (omega (arith, a.0)),
    record { sized = a; shape = inl (refl, omega arith, refl) },
  )
  pop_block other zero b [] a l = absurd (omega arith)
  pop_block other (suc (suc n)) b [] a l = absurd (omega arith)
  pop_block other n b (c ∷ bs) a l =
      let f : (n == 0) ≡ false = ground arith in
      let g : (n - 1 == 0) ≡ false = ground arith in
      rw f (
        rw g (
          below-get_or 0 b (flat size (c ∷ bs)) other (omega (arith, a.0)),
          record { sized = a.1; shape = inr (omega arith, omega arith, positive, omega arith) },
        ))

  pop_inside :
      (other : A) (n p : ℕ) (b : List A) (bs : List (List A))
      → AllSized size (b ∷ bs)
      → n ≡ length (b ∷ bs)
      → 1 < p
      → p ≤ size
      → Popped other (stack n (b ∷ bs) p)
  unfolding fstack_pop fstack_top items AllSized below flat filled
  pop_inside other n p b bs a l q u =
      let f : (n == 0) ≡ false = ground arith in
      let g : (p - 1 == 0) ≡ false = ground arith in
      let d : p ≡ suc (p - 1) = omega arith in
      rw g (
        rw f (
          ap (λ k. below k b (flat size bs)) d
              ∙ below-get_or (p - 1) b (flat size bs) other (omega (arith, a.0)),
          record { sized = a; shape = inr (l, omega arith, omega arith, omega arith) },
        ))

  -- On a valid stack that is not empty, `fstack_top` reads the top item and `fstack_pop` takes it,
  -- and keeps the stack valid.
  pub fstack_pop_lem :
      (other : A) (s : FastStack A)
      → IsValid size s
      → fstack_empty size page s ≡ false
      → Popped other s
  unfolding fstack_empty
  fstack_pop_lem other s v e = elim v.shape [
    | inl (z, l, p) ↦ absurd (ground arith)
    | inr (l, h, q, u) ↦ filled_pop s.block_count s.ptr s.blocks v.sized l q u h
  ]
    where
      filled_pop :
          (n p : ℕ) (bs : List (List A))
          → AllSized size bs
          → n ≡ length bs
          → 0 < p
          → p ≤ size
          → 0 < n
          → Popped other (stack n bs p)
      filled_pop n p [] a l q u h = absurd (omega arith)
      filled_pop n zero (b ∷ bs) a l q u h = absurd (omega arith)
      filled_pop n (suc zero) (b ∷ bs) a l q u h = pop_block other n b bs a l
      filled_pop n (suc (suc p)) (b ∷ bs) a l q u h =
          pop_inside other n (suc (suc p)) b bs a l (omega arith) u

  length-flat : (bs : List (List A)) → AllSized size bs → length (flat size bs) ≡ length bs * size
  unfolding flat AllSized
  length-flat [] a = omega arith
  length-flat (b ∷ bs) a =
      grind (arith, length-flat bs a.1, length-below size b (flat size bs) (omega (arith, a.0)))

  -- The size that is computed is the number of items, and the emptiness test tells whether it is 0.
  pub fstack_size_lem :
      (s : FastStack A)
      → IsValid size s
      → (fstack_size size page s ≡ length (items size s))
        × (fstack_empty size page s ≡ (length (items size s) == 0))
  unfolding fstack_size fstack_empty items filled AllSized
  fstack_size_lem s v = elim v.shape [
    | inl (z, l, p) ↦
        let t : (s.block_count == 0) ≡ true = ground (arith, z) in
        let e : s.block_count * size + s.ptr - size ≡ 0 = rw z (rw p (omega arith)) in
        rw t (e, refl)
    | inr (l, h, q, u) ↦ sized s.block_count s.ptr s.blocks v.sized l h q u
  ]
    where
      sized :
          (n p : ℕ) (bs : List (List A))
          → AllSized size bs
          → n ≡ length bs
          → 0 < n
          → 0 < p
          → p ≤ size
          → (n * size + p - size ≡ length (items size (stack n bs p)))
            × ((n == 0) ≡ (length (items size (stack n bs p)) == 0))
      sized n p [] a l h q u = absurd (omega arith)
      sized zero p (b ∷ bs) a l h q u = absurd (omega arith)
      sized (suc n) p (b ∷ bs) a l h q u =
          let c : length (below p b (flat size bs)) ≡ p + length bs * size =
            omega
              (arith, length-below p b (flat size bs) (omega (arith, a.0)), length-flat bs a.1) in
          let k : n ≡ length bs = omega arith in
          let m : suc n * size ≡ size + length bs * size = rw k (grind arith) in
          let f : (suc n == 0) ≡ false = ground arith in
          rw f (omega (arith, c, m), ground (arith, c))
