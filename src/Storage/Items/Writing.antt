-- ===== src/Storage/Items/Writing.antt =====
-- Writing an element appends its bytes, within the buffer.
use hybrid_databases.Base.{
  ℕ, ◌+◌, ◌^◌, ◌≤◌, ◌≡◌, refl, sym, ap, ◌∙◌, arith, [], ◌∷◌, length, length-append, append-nil,
}
use hybrid_databases.Base.Options.{◌>>=◌}
use hybrid_databases.Storage.Format.{array_end, string_mark}
use hybrid_databases.Storage.Codes.{length_bytes}
use hybrid_databases.Storage.Writer.{Writer, ptr, write_array_end}
use hybrid_databases.Storage.Writer.Bounds.{
  IsValid, Appended, Appended-bind, Appended-depth, ptr-Appends, Appends-IsValid, write_array_lem,
  write_array_end_lem, write_string_lem,
}
use hybrid_databases.Storage.Items.{
  Item, Items, str, arr, nil, cons, encode, encode_items, write_item, write_items,
}

mutual
  unfolding encode encode_items write_item write_items

  item_appends :
      (x : Item) {W : Writer} (dep : ℕ)
      → W.depth ≡ dep
      → IsValid W
      → ptr W + length (encode x) + 9 ≤ 2 ^ 61
      → Appended W (encode x) dep (write_item W x)
  item_appends (str bs) {W} dep d v h = Appended-depth d (
      write_string_lem bs v
        (omega (arith, length-append (length_bytes (length bs + string_mark)) bs)))
  item_appends (arr xs) {W} dep d v h =
      Appended-bind (λ W1. do W2 ← write_items W1 xs; write_array_end W2)
        (write_array_lem v (omega arith))
        λ W1 a1.
          Appended-bind write_array_end
            (items_append xs (dep + 1) (a1.depth ∙ ap (λ (n : ℕ). n + 1) d) (Appends-IsValid a1)
              (omega (arith, ptr-Appends a1, length-append (encode_items xs) (array_end ∷ []))))
            λ W2 a2. write_array_end_lem dep (Appends-IsValid a2) a2.depth (
              omega (
                arith,
                ptr-Appends a1,
                ptr-Appends a2,
                length-append (encode_items xs) (array_end ∷ []),
              ))

  items_append :
      (xs : Items) {W : Writer} (dep : ℕ)
      → W.depth ≡ dep
      → IsValid W
      → ptr W + length (encode_items xs) + 9 ≤ 2 ^ 61
      → Appended W (encode_items xs) dep (write_items W xs)
  items_append nil {W} dep d v h = (
    W,
    refl,
    record {
      sealed = refl;
      cur = sym (append-nil W.cur);
      depth = d;
      room = v.room;
      small = v.small;
    },
  )
  items_append (cons x xs) {W} dep d v h =
      Appended-bind (λ W1. write_items W1 xs)
        (item_appends x dep d v (omega (arith, length-append (encode x) (encode_items xs))))
        λ W1 a1.
          items_append xs dep a1.depth (Appends-IsValid a1)
            (omega (arith, ptr-Appends a1, length-append (encode x) (encode_items xs)))

-- Writing an element, however deep it nests, into a valid writer with room up to 2 ^ 61 succeeds,
-- stays within the buffer, appends the element's bytes and leaves the depth.
pub write_item-Appended :
    (x : Item) {W : Writer}
    → IsValid W
    → ptr W + length (encode x) + 9 ≤ 2 ^ 61
    → Appended W (encode x) W.depth (write_item W x)
write_item-Appended x {W} v h = item_appends x W.depth refl v h

pub write_items-Appended :
    (xs : Items) {W : Writer}
    → IsValid W
    → ptr W + length (encode_items xs) + 9 ≤ 2 ^ 61
    → Appended W (encode_items xs) W.depth (write_items W xs)
write_items-Appended xs {W} v h = items_append xs W.depth refl v h
