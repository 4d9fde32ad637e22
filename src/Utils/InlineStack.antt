-- ===== src/Utils/InlineStack.antt =====
-- utils/inline_stack.h: a stack in an array of fixed size, with its checks of the bounds.
use hybrid_databases.Base.{
  ℕ, zero, suc, ◌+◌, ◌-◌, ◌≡◌, ◌≤◌, ◌<◌, refl, arith, true, Option, none, some, List, [], ◌∷◌,
  length, Bool, ◌==◌, ltb, leb, ◌&&◌, if◌then◌else◌, get_or, set, length-set, get_or-set_self,
}
use hybrid_databases.Utils.FastStack.Contents.{below, below-set}

-- `InlineStack(Type, Size)`
pub record InlineStack {ℓ} (A : Type ℓ) : Type ℓ where
  pub ptr : ℕ
  pub cells : List A

module _ {ℓ} {A : Type ℓ} (other : A) where
  -- `istack_push`, `istack_top` and `istack_pop`; `none` is a check of the bounds that fails.
  unfoldable pub istack_push : A → InlineStack A → Option (InlineStack A)
  istack_push item s =
      if ltb s.ptr (length s.cells)
      then some (record { ptr = s.ptr + 1; cells = set s.cells s.ptr item })
      else none

  unfoldable pub istack_top : InlineStack A → Option A
  istack_top s =
      if leb 1 s.ptr && ltb (s.ptr - 1) (length s.cells)
      then some (get_or s.cells (s.ptr - 1) other)
      else none

  unfoldable pub istack_pop : InlineStack A → Option (A × InlineStack A)
  istack_pop s =
      if leb 1 s.ptr && ltb (s.ptr - 1) (length s.cells)
      then some (get_or s.cells (s.ptr - 1) other, record s { ptr = s.ptr - 1 })
      else none

  -- `istack_empty`, `istack_size` and `istack_capacity`
  abbrev pub istack_empty : InlineStack A → Bool
  istack_empty s = s.ptr == 0

  abbrev pub istack_size : InlineStack A → ℕ
  istack_size s = s.ptr

  abbrev pub istack_capacity : InlineStack A → ℕ
  istack_capacity s = length s.cells

  -- `istack_swap`
  abbrev pub istack_swap : InlineStack A → InlineStack A → InlineStack A × InlineStack A
  istack_swap s1 s2 = (s2, s1)

  -- `istack_erase` and `istack_shrink`
  unfoldable pub istack_erase : InlineStack A → InlineStack A
  istack_erase s = record s { ptr = 0 }

  unfoldable pub istack_shrink : ℕ → InlineStack A → Option (InlineStack A)
  istack_shrink size s =
      if ltb 0 size && leb size s.ptr then some (record s { ptr = size }) else none

module _ {ℓ} {A : Type ℓ} (other : A) where
  -- The items, the top one first.
  abbrev pub items : InlineStack A → List A
  items s = below s.ptr s.cells []

  below-set_above :
      (n k : ℕ) (xs rest : List A) (v : A) → n ≤ k → below n (set xs k v) rest ≡ below n xs rest
  unfolding below
  below-set_above zero k xs rest v h = refl
  below-set_above (suc n) k [] rest v h = refl
  below-set_above (suc n) zero (x ∷ xs) rest v h = elim h [ ]
  below-set_above (suc n) (suc k) (x ∷ xs) rest v h =
      below-set_above n k xs (x ∷ rest) v (omega arith)

  -- What is pushed is popped again, and leaves the items that were there.
  pub istack_pop-push :
      (item : A) (s : InlineStack A)
      → s.ptr < length s.cells
      → (s1 : InlineStack A) × (s2 : InlineStack A) × (istack_push other item s ≡ some s1)
        × (items s1 ≡ item ∷ items s)
        × (istack_pop other s1 ≡ some (item, s2))
        × (items s2 ≡ items s)
  unfolding istack_push istack_pop
  istack_pop-push item s h =
      let s1 : InlineStack A = record { ptr = s.ptr + 1; cells = set s.cells s.ptr item } in
      let d : s.ptr + 1 ≡ suc s.ptr = omega arith in
      let m : s.ptr + 1 - 1 ≡ s.ptr = omega arith in
      let c : leb 1 (s.ptr + 1) && ltb (s.ptr + 1 - 1) (length (set s.cells s.ptr item)) ≡ true =
        ground (arith, length-set s.cells s.ptr item) in
      let t : ltb s.ptr (length s.cells) ≡ true = ground arith in
      (
        s1,
        record s1 { ptr = s.ptr },
        rw t refl,
        rw d (below-set s.ptr s.cells [] item h),
        rw c (rw m (rw (get_or-set_self s.cells s.ptr item other h) refl)),
        below-set_above s.ptr s.ptr s.cells [] item (omega arith),
      )
