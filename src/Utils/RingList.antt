-- ===== src/Utils/RingList.antt =====
-- utils/list.h: circular doubly linked lists with a head, as a store of the links of all cells.
use hybrid_databases.Base.{ℕ, ◌≡◌, ◌≢◌, refl, arith, Bool, ◌==◌, if◌then◌else◌}
use native.Mathlib.Decide.{ℕ_discrete}

-- `struct List` of every cell
pub record Links : Type 0 where
  pub next : ℕ → ℕ
  pub prev : ℕ → ℕ

abbrev pub put : ℕ → ℕ → (ℕ → ℕ) → ℕ → ℕ
put a v f x = if x == a then v else f x

-- `list_init_head`
unfoldable pub list_init_head : ℕ → Links → Links
list_init_head head L = record { next = put head head L.next; prev = put head head L.prev }

-- `list_empty`
unfoldable pub list_empty : ℕ → Links → Bool
list_empty head L = L.next head == head

-- `list_join_items`
unfoldable pub list_join_items : ℕ → ℕ → Links → Links
list_join_items a b L = record { next = put a b L.next; prev = put b a L.prev }

-- `list_join_lists`
unfoldable pub list_join_lists : ℕ → ℕ → Links → Links
list_join_lists head_a head_b L =
    let L1 = list_join_items (L.prev head_a) (L.next head_b) L in
    let L2 = list_join_items (L1.prev head_b) head_a L1 in
    if list_empty head_b L then L else list_init_head head_b L2

-- `list_add_begin`
unfoldable pub list_add_begin : ℕ → ℕ → Links → Links
list_add_begin head item L =
    let L1 = list_join_items item (L.next head) L in list_join_items head item L1

-- `list_add_end`
unfoldable pub list_add_end : ℕ → ℕ → Links → Links
list_add_end head item L =
    let L1 = list_join_items (L.prev head) item L in list_join_items item head L1

-- `list_remove`
unfoldable pub list_remove : ℕ → Links → Links
list_remove item L = list_join_items (L.prev item) (L.next item) L

put_self : (a v : ℕ) (f : ℕ → ℕ) → put a v f a ≡ v
put_self a v f = ground arith

put_ne : (a v : ℕ) (f : ℕ → ℕ) (x : ℕ) → x ≢ a → put a v f x ≡ f x
put_ne a v f x h = ground arith

put_back : (a v : ℕ) (f : ℕ → ℕ) (x : ℕ) → f a ≡ v → put a v f x ≡ f x
put_back a v f x e = elim (ℕ_discrete x a) [ yes q ↦ grind (arith, q, e) | no n ↦ ground arith ]

-- A cell that is put at the end of a list, whose head links back, and removed again leaves the
-- links of all other cells as they were.
pub list_remove-list_add_end :
    (head item x : ℕ) (L : Links)
    → L.next (L.prev head) ≡ head
    → item ≢ head
    → item ≢ L.prev head
    → x ≢ item
    → ((list_remove item (list_add_end head item L)).next x ≡ L.next x)
      × ((list_remove item (list_add_end head item L)).prev x ≡ L.prev x)
unfolding list_remove list_add_end list_join_items
list_remove-list_add_end head item x L r a b c = (
  grind (arith, put_back (L.prev head) head L.next x r),
  grind (arith, put_back head (L.prev head) L.prev x refl),
)

-- A cell that is put at the beginning of a list, whose head links back, and removed again leaves
-- the links of all other cells as they were.
pub list_remove-list_add_begin :
    (head item x : ℕ) (L : Links)
    → L.prev (L.next head) ≡ head
    → item ≢ head
    → item ≢ L.next head
    → x ≢ item
    → ((list_remove item (list_add_begin head item L)).next x ≡ L.next x)
      × ((list_remove item (list_add_begin head item L)).prev x ≡ L.prev x)
unfolding list_remove list_add_begin list_join_items
list_remove-list_add_begin head item x L r a b c = (
  grind (arith, put_back head (L.next head) L.next x refl),
  grind (arith, put_back (L.next head) head L.prev x r),
)
