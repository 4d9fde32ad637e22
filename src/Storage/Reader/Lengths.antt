-- ===== src/Storage/Reader/Lengths.antt =====
-- Strings, numbers and array marks are read back as they were written.
use hybrid_databases.Base.{
  ℕ, ◌+◌, ◌/◌, ◌^◌, ◌≤◌, ◌<◌, ◌≡◌, refl, arith, List, [], ◌∷◌, ◌++◌, ◌∙◌, length, take-append,
  drop-append, length-append, append_assoc, append-nil, bit_and,
}
use native.Mathlib.Decide.{dec_lt}
use hybrid_databases.Storage.Format.{array_begin, array_end, string_mark}
use hybrid_databases.Storage.Codes.{
  fixed_bytes, digits, prefix_loop, first_byte, length_bytes, length-fixed_bytes, length-digits,
}
use hybrid_databases.Storage.Writer.Bounds.{string_bytes}
use hybrid_databases.Storage.Reader.{
  Reader, ok, leading_ones, ensure_space, advance, read_length, read_string, read_number,
  read_array, read_array_end, reader_next,
}
use hybrid_databases.Storage.Reader.Values.{
  le_value, read_le-append, le_value-fixed_bytes, le_value-digits, prefix_loop_ends,
  prefix_loop_starts, first_byte_lem,
}

-- A reader between the bytes `done` and `rest` of its element.
abbrev pub at : ℕ → List ℕ → List ℕ → ℕ → Reader
at base done rest depth = record { base = base; done = done; rest = rest; depth = depth }

-- The element lies in the lower half of the address space.
abbrev pub Fits : ℕ → List ℕ → List ℕ → Type 0
Fits base done rest = base + length done + length rest < 2 ^ 63

module _ (base : ℕ) (done : List ℕ) (depth : ℕ) where
  pub advance-at :
      (bs more : List ℕ)
      → advance (at base done (bs ++ more) depth) (length bs) ≡ at base (done ++ bs) more depth
  advance-at bs more = rw (take-append, drop-append)

  pub read_array-at :
      (more : List ℕ)
      → Fits base done (array_begin ∷ more)
      → read_array (at base done (array_begin ∷ more) depth)
        ≡ ok (at base (done ++ array_begin ∷ []) more (depth + 1))
  unfolding read_array ensure_space
  read_array-at more h = ground arith

  pub read_array_end-at :
      (more : List ℕ)
      → Fits base done (array_end ∷ more)
      → read_array_end (at base done (array_end ∷ more) (depth + 1))
        ≡ ok (at base (done ++ array_end ∷ []) more depth)
  unfolding read_array_end ensure_space
  read_array_end-at more h = ground arith

  short_length :
      (n : ℕ) (more : List ℕ)
      → n < 128
      → read_length (at base done more depth) n ≡ ok (n, at base done more depth)
  unfolding read_length
  short_length n more h = ground arith

  long_length :
      (n : ℕ) (more : List ℕ)
      → n < 2 ^ 64
      → Fits base done (fixed_bytes 8 n ++ more)
      → read_length (at base done (fixed_bytes 8 n ++ more) depth) 0xFF
        ≡ ok (n, at base (done ++ fixed_bytes 8 n) more depth)
  unfolding read_length ensure_space
  long_length n more h f = ground (
    arith,
    read_le-append (fixed_bytes 8 n) more 0,
    le_value-fixed_bytes 8 n,
    length-fixed_bytes 8 n,
    advance-at (fixed_bytes 8 n) more,
    length-append (fixed_bytes 8 n) more,
  )

  prefixed_length :
      (f m n : ℕ) (bytes more : List ℕ)
      → 128 ≤ f
      → f < 255
      → leading_ones 8 f ≡ length bytes
      → bit_and f (255 / 2 ^ length bytes) ≡ m
      → le_value bytes m ≡ n
      → n < 2 ^ 64
      → read_length (at base done (bytes ++ more) depth) f
        ≡ ok (n, at base (done ++ bytes) more depth)
  unfolding read_length
  prefixed_length f m n bytes more p q l b v h =
      ground (arith, read_le-append bytes more m, advance-at bytes more)

-- How the stored form of `n` begins, goes on, and is read.
record StoredAs (n : ℕ) (first : ℕ) (tail : List ℕ) : Type 0 where
  bytes : length_bytes n ≡ first ∷ tail
  mark : string_mark ≤ first
  reads :
      (base : ℕ) (done : List ℕ) (depth : ℕ) (more : List ℕ)
      → Fits base done (tail ++ more)
      → read_length (at base done (tail ++ more) depth) first
        ≡ ok (n, at base (done ++ tail) more depth)

prefixed_StoredAs :
    (n : ℕ)
    → 128 ≤ n
    → n < 2 ^ 56
    → let (bytes, j, m) = prefix_loop 8 0 0x80 n in StoredAs n (first_byte j m) bytes
unfolding length_bytes
prefixed_StoredAs n lo hi =
    let (bytes, j, m) = prefix_loop 8 0 0x80 n in
    let (count, few, small, value) = prefix_loop_ends 7 0 n refl hi in
    let some_bytes : 0 < j = prefix_loop_starts n lo in
    let (ones, low, from, upto) = first_byte_lem j m some_bytes few small in
    let count' : j ≡ length bytes = omega arith in
    record {
      bytes = ground arith;
      mark = omega arith;
      reads = λ base done depth more f.
          prefixed_length base done depth (first_byte j m) m n bytes more from upto (ones ∙ count')
            (rw (← count') low) value (omega arith);
    }

length_bytes-StoredAs :
    (n : ℕ) → string_mark ≤ n → n < 2 ^ 64 → (first : ℕ) × (tail : List ℕ) × StoredAs n first tail
unfolding length_bytes
length_bytes-StoredAs n lo hi = elim (dec_lt n 128) [
  | yes short ↦ (
    n,
    [],
    record {
      bytes = ground arith;
      mark = lo;
      reads = λ base done depth more f. rw append-nil (short_length base done depth n more short);
    },
  )
  | no long ↦ elim (dec_lt n (2 ^ 56)) [
    | yes fits ↦ (_, _, prefixed_StoredAs n (omega arith) fits)
    | no wide ↦ (
      0xFF,
      fixed_bytes 8 n,
      record {
        bytes = ground arith;
        mark = omega arith;
        reads = λ base done depth more f. long_length base done depth n more hi f;
      },
    )
  ]
]

module _ (base : ℕ) (done : List ℕ) (depth : ℕ) where
  stored_string :
      (bs more tail : List ℕ) (first : ℕ)
      → StoredAs (length bs + string_mark) first tail
      → Fits base done (first ∷ (tail ++ bs) ++ more)
      → read_string (at base done (first ∷ (tail ++ bs) ++ more) depth)
        ≡ ok (bs, at base (done ++ first ∷ (tail ++ bs)) more depth)
  unfolding read_string ensure_space
  stored_string bs more tail first s f = ground (
    arith,
    s.reads base (done ++ first ∷ []) depth (bs ++ more),
    append_assoc tail bs more,
    append_assoc done (first ∷ []) (tail ++ bs),
    append_assoc (done ++ first ∷ []) tail bs,
    length-append tail (bs ++ more),
    length-append bs more,
    length-append done (first ∷ []),
    length-append (done ++ first ∷ []) tail,
    take-append bs more,
    drop-append bs more,
  )

  -- `read_string` gives the contents that `write_string` stored, and stops behind them.
  pub read_string-at :
      (bs more : List ℕ)
      → Fits base done (string_bytes bs ++ more)
      → read_string (at base done (string_bytes bs ++ more) depth)
        ≡ ok (bs, at base (done ++ string_bytes bs) more depth)
  read_string-at bs more f =
      let n = length bs + string_mark in
      let small : n < 2 ^ 64 =
        omega
          (arith, length-append (length_bytes n ++ bs) more, length-append (length_bytes n) bs) in
      let (first, tail, s) = length_bytes-StoredAs n (omega arith) small in
      rw s.bytes (stored_string bs more tail first s (rw s.bytes at f))

  stored_mark :
      (bs more tail : List ℕ) (first : ℕ)
      → StoredAs (length bs + string_mark) first tail
      → reader_next (at base done (first ∷ (tail ++ bs) ++ more) depth) ≡ string_mark
  unfolding reader_next
  stored_mark bs more tail first s = let m : string_mark ≤ first = s.mark in ground arith

  pub reader_next_string :
      (bs more : List ℕ)
      → length bs + string_mark < 2 ^ 64
      → reader_next (at base done (string_bytes bs ++ more) depth) ≡ string_mark
  reader_next_string bs more h =
      let (first, tail, s) = length_bytes-StoredAs (length bs + string_mark) (omega arith) h in
      rw s.bytes (stored_mark bs more tail first s)

  -- `read_number` gives the number that `write_number` stored.
  pub read_number-at :
      (n : ℕ) (more : List ℕ)
      → n < 2 ^ 64
      → Fits base done ((string_mark + length (digits n)) ∷ (digits n ++ more))
      → read_number (at base done ((string_mark + length (digits n)) ∷ (digits n ++ more)) depth)
        ≡ ok (n, at base (done ++ (string_mark + length (digits n)) ∷ digits n) more depth)
  unfolding read_number ensure_space
  read_number-at n more h f =
      let first = string_mark + length (digits n) in
      ground (
        arith,
        length-digits n,
        le_value-digits n,
        read_le-append (digits n) more 0,
        advance-at base (done ++ first ∷ []) depth (digits n) more,
        append_assoc done (first ∷ []) (digits n),
        length-append (digits n) more,
        length-append done (first ∷ []),
      )

length_bytes_nonempty : (n : ℕ) → 0 < length (length_bytes n)
unfolding length_bytes
length_bytes_nonempty n = ground arith

pub string_bytes_nonempty : (bs : List ℕ) → length bs < length (string_bytes bs)
string_bytes_nonempty bs = omega (
  arith,
  length-append (length_bytes (length bs + string_mark)) bs,
  length_bytes_nonempty (length bs + string_mark),
)
