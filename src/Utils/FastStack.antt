-- ===== src/Utils/FastStack.antt =====
-- utils/fast_stack.h: a stack in blocks of `size` items, which takes whole pages and gives them
-- back, but keeps one when it gets empty.
pub mod Contents
pub mod Pops
use hybrid_databases.Base.{
  ℕ, zero, suc, ◌+◌, ◌-◌, ◌*◌, Bool, true, false, not, List, [], ◌∷◌, ◌==◌, ◌&&◌, if◌then◌else◌,
  get_or, set,
}

-- `FastStack(Type)`: the arrays of the blocks in the list, the last one first, and `ptr` counted
-- from `begin` in the last one, or, without blocks, up to `end`.
pub record FastStack {ℓ} (A : Type ℓ) : Type ℓ where
  pub block_count : ℕ
  pub blocks : List (List A)
  pub ptr : ℕ

-- `page` is what stands in a page that `page_alloc` gives, `size` items.
module _ {ℓ} {A : Type ℓ} (size : ℕ) (page : List A) where
  -- `fstack_init`
  unfoldable pub fstack_init : FastStack A
  fstack_init = record { block_count = 0; blocks = []; ptr = size }

  -- `_fstack_expand`
  unfoldable pub fstack_expand : FastStack A → FastStack A
  fstack_expand s = record {
    block_count = s.block_count + 1;
    blocks = elim s.blocks [
      | [] ↦ page ∷ []
      | b ∷ bs ↦ if s.block_count + 1 == 1 then b ∷ bs else page ∷ b ∷ bs
    ];
    ptr = 0;
  }

  -- `_fstack_shrink`
  unfoldable pub fstack_shrink : FastStack A → FastStack A
  fstack_shrink s = record {
    block_count = s.block_count - 1;
    blocks = if s.block_count - 1 == 0 then s.blocks else elim s.blocks [ [] ↦ [] | b ∷ bs ↦ bs ];
    ptr = size;
  }

  -- `*__stack->ptr++ = item`
  unfoldable pub store : A → FastStack A → FastStack A
  store x s = record s {
    blocks = elim s.blocks [ [] ↦ [] | b ∷ bs ↦ set b s.ptr x ∷ bs ];
    ptr = s.ptr + 1;
  }

  -- `fstack_push`
  unfoldable pub fstack_push : A → FastStack A → FastStack A
  fstack_push x s = store x (if s.ptr == size then fstack_expand s else s)

  -- `fstack_top`; `other` stands for what is read outside of the blocks.
  unfoldable pub fstack_top : A → FastStack A → A
  fstack_top other s = elim s.blocks [ [] ↦ other | b ∷ bs ↦ get_or b (s.ptr - 1) other ]

  -- `fstack_pop`
  unfoldable pub fstack_pop : FastStack A → FastStack A
  fstack_pop s =
      let s1 = record s { ptr = s.ptr - 1 } in if s1.ptr == 0 then fstack_shrink s1 else s1

  -- `fstack_empty`
  unfoldable pub fstack_empty : FastStack A → Bool
  fstack_empty s = s.block_count == 0

  -- `fstack_size`, whose subtraction wraps around and back
  unfoldable pub fstack_size : FastStack A → ℕ
  fstack_size s = s.block_count * size + s.ptr - size

  -- `fstack_erase`, with the block count for the rounds of its loop
  unfoldable pub erase_loop : ℕ → FastStack A → FastStack A
  erase_loop zero s = s
  erase_loop (suc n) s = if s.block_count == 0 then s else erase_loop n (fstack_shrink s)

  unfoldable pub fstack_erase : FastStack A → FastStack A
  fstack_erase s = erase_loop s.block_count s
