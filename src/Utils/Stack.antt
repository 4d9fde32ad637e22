-- ===== src/Utils/Stack.antt =====
-- utils/stack.h: a stack in one array that grows and shrinks.
pub mod Contents
use hybrid_databases.Base.{
  ℕ, zero, suc, ◌+◌, ◌-◌, ◌*◌, ◌/◌, Bool, true, false, List, [], ◌∷◌, ◌++◌, length, ltb, ◌==◌, ◌&&◌,
  if◌then◌else◌, get_or, set, take, replicate,
}

-- `STACK_MIN_SIZE`
abbrev pub min_size : ℕ
min_size = 17

-- `Stack(Type)`: the array from `begin` to `end`, and `ptr` counted from `begin`.
pub record Stack {ℓ} (A : Type ℓ) : Type ℓ where
  pub cells : List A
  pub ptr : ℕ

-- `fresh` stands in memory that `xrealloc` adds, and for what is read outside of the array.
module _ {ℓ} {A : Type ℓ} (fresh : A) where
  -- `stack_init`
  unfoldable pub stack_init : Stack A
  stack_init = record { cells = []; ptr = 0 }

  -- `_stack_expand`, which doubles the array and adds `STACK_MIN_SIZE`
  unfoldable pub stack_expand : Stack A → Stack A
  stack_expand s = record s { cells = s.cells ++ replicate (length s.cells + min_size) fresh }

  -- `_stack_shrink`
  unfoldable pub stack_shrink : Stack A → Stack A
  stack_shrink s = record s { cells = take ((length s.cells + 1) / 2) s.cells }

  -- `stack_push`
  unfoldable pub stack_push : A → Stack A → Stack A
  stack_push value s =
      let s1 = if s.ptr == length s.cells then stack_expand s else s in
      record { cells = set s1.cells s1.ptr value; ptr = s1.ptr + 1 }

  -- `stack_empty`, `stack_size`, `stack_capacity`
  unfoldable pub stack_empty : Stack A → Bool
  stack_empty s = s.ptr == 0

  abbrev pub stack_size : Stack A → ℕ
  stack_size s = s.ptr

  abbrev pub stack_capacity : Stack A → ℕ
  stack_capacity s = length s.cells

  -- `stack_top`
  unfoldable pub stack_top : Stack A → A
  stack_top s = get_or s.cells (s.ptr - 1) fresh

  -- `stack_at`
  abbrev pub stack_at : Stack A → ℕ → A
  stack_at s i = get_or s.cells i fresh

  -- `stack_swap`
  abbrev pub stack_swap : Stack A → Stack A → Stack A × Stack A
  stack_swap s1 s2 = (s2, s1)

  -- `stack_erase`
  unfoldable pub stack_erase : Stack A → Stack A
  stack_erase s = record s { ptr = 0 }

  -- `stack_pop`
  unfoldable pub stack_pop : Stack A → A × Stack A
  stack_pop s =
      let s1 =
        if ltb (2 * stack_size s) (stack_capacity s) && ltb (2 * min_size) (stack_capacity s)
        then stack_shrink s
        else s in
      (get_or s1.cells (s1.ptr - 1) fresh, record s1 { ptr = s1.ptr - 1 })
