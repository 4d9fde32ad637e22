-- ===== src/Storage/Items.antt =====
-- The elements of the format, `element := array | string` in storage/storage.h, and how the macros
-- of storage.include/macros.h write one: `wArray ... wArrayEnd` round the elements of an array.
pub mod Writing
pub mod Skipping
use hybrid_databases.Base.{ℕ, ◌+◌, Option, some, List, [], ◌∷◌, ◌++◌}
use hybrid_databases.Base.Options.{◌>>=◌}
use hybrid_databases.Storage.Format.{array_begin, array_end}
use hybrid_databases.Storage.Writer.{Writer, write_array, write_array_end, write_string}
use hybrid_databases.Storage.Writer.Bounds.{string_bytes}

mutual
  pub data Item : Type 0 where
    str : List ℕ → Item
    arr : Items → Item

  pub data Items : Type 0 where
    nil : Items
    cons : Item → Items → Items

-- The bytes of an element, by the grammar.
unfoldable mutual
  pub encode : Item → List ℕ
  encode (str bs) = string_bytes bs
  encode (arr xs) = array_begin ∷ (encode_items xs ++ array_end ∷ [])

  pub encode_items : Items → List ℕ
  encode_items nil = []
  encode_items (cons x xs) = encode x ++ encode_items xs

unfoldable mutual
  pub write_item : Writer → Item → Option Writer
  write_item W (str bs) = write_string W bs
  write_item W (arr xs) = do W1 ← write_array W; W2 ← write_items W1 xs; write_array_end W2

  pub write_items : Writer → Items → Option Writer
  write_items W nil = some W
  write_items W (cons x xs) = do W1 ← write_item W x; write_items W1 xs
