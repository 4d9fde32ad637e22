-- ===== src/Storage/Writer/Positions.antt =====
-- writer_get_position and writer_set_position of storage/storage.include/writer.c.
use hybrid_databases.Base.{
  ℕ, ◌-◌, ◌≡◌, refl, sym, arith, true, Option, some, List, [], ◌∷◌, ◌++◌, length, leb, take, drop,
  replicate, length-append, take-append, drop-append, append_assoc,
}
use hybrid_databases.Base.Options.{◌>>=◌}
use hybrid_databases.Storage.Format.{array_begin}
use hybrid_databases.Storage.Items.{Items, encode_items, write_items}
use hybrid_databases.Storage.Writer.{
  Writer, begin, ptr, contents, write_array, writer_get_position, writer_set_position,
}
use hybrid_databases.Storage.Writer.Bounds.{Appends, ptr-Appends}

module _ {W W1 : Writer} {bs : List ℕ} {dep : ℕ} (a : Appends W bs dep W1) where
  sealed_taken : take (begin W - 10) (contents W1) ≡ W.sealed
  sealed_taken =
      let n : begin W - 10 ≡ length W.sealed = omega arith in
      rw (n, a.sealed) (take-append W.sealed (replicate 10 0 ++ W1.cur))

  before_begin : drop (begin W) (contents W1) ≡ W.cur ++ bs
  before_begin =
      let n : begin W ≡ length (W.sealed ++ replicate 10 0) =
        omega (arith, length-append W.sealed (replicate 10 0)) in
      rw (n, a.sealed, a.cur, sym (append_assoc W.sealed (replicate 10 0) (W.cur ++ bs)))
        (drop-append (W.sealed ++ replicate 10 0) (W.cur ++ bs))

  cur_taken : take (ptr W - begin W) (drop (begin W) (contents W1)) ≡ W.cur
  cur_taken =
      let n : ptr W - begin W ≡ length W.cur = omega arith in
      rw (before_begin, n) (take-append W.cur bs)

  pub undone : writer_set_position W1 (writer_get_position W) ≡ some (record W { cap = W1.cap })
  unfolding writer_set_position writer_get_position
  undone =
      let first : leb (begin W) (ptr W) ≡ true = ground arith in
      let second : leb (ptr W) (ptr W1) ≡ true = ground (arith, ptr-Appends a) in
      rw (first, second, sealed_taken, cur_taken) refl

-- Elements and the beginnings of arrays that are left open: each of the arrays begins behind the
-- elements that are given with it.
abbrev pub write_open : List Items → Writer → Option Writer
write_open [] W = some W
write_open (xs ∷ more) W = do W1 ← write_items W xs; W2 ← write_array W1; write_open more W2

abbrev pub open_bytes : List Items → List ℕ
open_bytes [] = []
open_bytes (xs ∷ more) = encode_items xs ++ (array_begin ∷ open_bytes more)
