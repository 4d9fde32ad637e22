-- ===== src/Storage/Reader/RoundTrips.antt =====
-- Strings and numbers of storage/storage.include/writer.c, read by storage/storage.include/reader.c.
use hybrid_databases.Base.{
  ℕ, ◌+◌, ◌^◌, ◌≤◌, ◌<◌, ◌≡◌, arith, some, List, ◌∷◌, ◌++◌, length, length-append,
}
use hybrid_databases.Storage.Format.{string_mark}
use hybrid_databases.Storage.Codes.{digits, length_bytes, length-length_bytes, length-digits}
use hybrid_databases.Storage.Writer.{Writer, ptr, write_string, write_number}
use hybrid_databases.Storage.Writer.Bounds.{
  IsValid, Appends, Appends-IsValid, string_bytes, write_string_lem, write_number_lem,
}
use hybrid_databases.Storage.Reader.{ok, read_string, read_number}
use hybrid_databases.Storage.Reader.Lengths.{at, read_string-at, read_number-at}

-- The writer `W'` is `W` with the bytes `stored` behind its own, and still within its buffer.
pub record Stores (W : Writer) (stored : List ℕ) (W' : Writer) : Type 0 where
  pub sealed : W'.sealed ≡ W.sealed
  pub cur : W'.cur ≡ W.cur ++ stored
  pub depth : W'.depth ≡ W.depth
  pub valid : IsValid W'

Appends-Stores :
    {W W' : Writer} {stored : List ℕ} → Appends W stored W.depth W' → Stores W stored W'
Appends-Stores a = record {
  sealed = a.sealed;
  cur = a.cur;
  depth = a.depth;
  valid = Appends-IsValid a;
}

module _ (base : ℕ) (done : List ℕ) (depth : ℕ) (more : List ℕ) {W : Writer} (v : IsValid W) where
  -- `write_string` of any contents succeeds, in a valid writer with room up to 2 ^ 61, and stores
  -- bytes behind those of the writer, which stays valid. Wherever these bytes lie in an element in
  -- the lower half of the address space, between any bytes `done` and `more`, `read_string` gives
  -- the contents and stops behind them.
  pub read_string-write_string :
      (bs : List ℕ)
      → ptr W + length bs + 9 ≤ 2 ^ 61
      → base + length done + length bs + 9 + length more < 2 ^ 63
      → (W' : Writer) × (stored : List ℕ) × (write_string W bs ≡ some W')
        × Stores W stored W'
        × (read_string (at base done (stored ++ more) depth)
            ≡ ok (bs, at base (done ++ stored) more depth))
  read_string-write_string bs h f =
      let (W', e, a) = write_string_lem bs v h in
      let fits : base + length done + length (string_bytes bs ++ more) < 2 ^ 63 = omega (
        arith,
        length-length_bytes (length bs + string_mark),
        length-append (length_bytes (length bs + string_mark)) bs,
        length-append (string_bytes bs) more,
      ) in
      (W', string_bytes bs, e, Appends-Stores a, read_string-at base done depth bs more fits)

  -- `write_number` of a 64-bit number succeeds, in a valid writer with room up to 2 ^ 61, and stores
  -- bytes behind those of the writer, which stays valid. Wherever these bytes lie in an element in
  -- the lower half of the address space, between any bytes `done` and `more`, `read_number` gives
  -- the number and stops behind it.
  pub read_number-write_number :
      (n : ℕ)
      → n < 2 ^ 64
      → ptr W + 9 ≤ 2 ^ 61
      → base + length done + 9 + length more < 2 ^ 63
      → (W' : Writer) × (stored : List ℕ) × (write_number W n ≡ some W')
        × Stores W stored W'
        × (read_number (at base done (stored ++ more) depth)
            ≡ ok (n, at base (done ++ stored) more depth))
  read_number-write_number n small h f =
      let (W', e, a) = write_number_lem n v h in
      let fits : base
            + length done
            + length ((string_mark + length (digits n)) ∷ (digits n ++ more))
          < 2 ^ 63 =
        omega (arith, length-digits n, length-append (digits n) more) in
      (
        W',
        (string_mark + length (digits n)) ∷ digits n,
        e,
        Appends-Stores a,
        read_number-at base done depth n more small fits,
      )
