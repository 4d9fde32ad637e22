-- ===== src/Storage/Writer.antt =====
-- storage/storage.include/writer.c and the writing half of inline.h. The buffer from `real_begin`
-- holds the finished root elements, ten bytes for the header of the next one, and the bytes of
-- that one; pointers are offsets from `real_begin`. `none` is a failed assertion or a byte
-- stored behind the end of the buffer. `xrealloc` is taken to succeed: it ends the program if not.
pub mod Bounds
pub mod Positions
use hybrid_databases.Base.{
  ℕ, ◌+◌, ◌-◌, ◌*◌, ◌/◌, ◌%◌, ◌^◌, ◌≤◌, Bool, true, false, not, Option, none, some, List, [], ◌∷◌,
  ◌++◌, length, ltb, leb, ◌==◌, if◌then◌else◌, take, drop, replicate,
}
use hybrid_databases.Base.Options.{◌>>=◌, ◌>>◌, guard}
use hybrid_databases.Storage.Format.{
  array_begin, array_end, dot, len_begin, len_end, crc_mark, string_mark,
}
use hybrid_databases.Storage.Crc.{crc32_c}
use hybrid_databases.Storage.Codes.{fixed_bytes, digits, length_bytes}

-- `sealed` are the bytes up to `begin - 10`, `cur` those from `begin` to `ptr`, and `cap` is
-- `end - real_begin`.
pub record Writer : Type 0 where
  pub sealed : List ℕ
  pub cur : List ℕ
  pub cap : ℕ
  pub depth : ℕ

-- `W->begin` and `W->ptr`
abbrev pub begin : Writer → ℕ
begin W = 10 + length W.sealed

abbrev pub ptr : Writer → ℕ
ptr W = begin W + length W.cur

abbrev pub writer_init : Writer
writer_init = record { sealed = []; cur = []; cap = 4010; depth = 0 }

-- `size_t` arithmetic wraps.
unfoldable pub get_space : Writer → ℕ → Writer
get_space W size =
    let new_size = (W.cap + size) % 2 ^ 64 in
    let grown = W.cap * 3 % 2 ^ 64 / 2 in
    record W { cap = if ltb new_size grown then grown else new_size }

unfoldable pub ensure_space : Writer → ℕ → Writer
unfolding get_space
ensure_space W size = if ltb W.cap (ptr W + size) then get_space W (ptr W + size - W.cap) else W

-- `*W->ptr++ = b`
abbrev pub store_byte : Writer → ℕ → Option Writer
store_byte W b = if ltb (ptr W) W.cap then some (record W { cur = W.cur ++ b ∷ [] }) else none

unfoldable pub store_bytes : Writer → List ℕ → Option Writer
store_bytes W [] = some W
store_bytes W (b ∷ bs) = do W' ← store_byte W b; store_bytes W' bs

unfoldable pub write_array : Writer → Option Writer
write_array W = do
  W' ← store_byte (ensure_space W 1) array_begin
  some (record W' { depth = W'.depth + 1 })

unfoldable pub write_array_end : Writer → Option Writer
write_array_end W = do
  let W1 = ensure_space W 1
  guard (ltb 0 W1.depth)
  store_byte (record W1 { depth = W1.depth - 1 }) array_end

-- `write_string` and the `memcpy` of the contents that every caller makes into its result.
unfoldable pub write_string : Writer → List ℕ → Option Writer
write_string W bs = do
  let size = length bs + string_mark
  let W1 = ensure_space W (length bs + 9)
  W2 ← (if ltb size 128 then store_byte W1 size else store_bytes W1 (length_bytes size))
  store_bytes W2 bs

-- The source leaves a byte free, stores the digits behind it and then their number in it.
unfoldable pub write_number : Writer → ℕ → Option Writer
write_number W n = store_bytes (ensure_space W 9) ((string_mark + length (digits n)) ∷ digits n)

-- The header of an element of `n` bytes.
abbrev pub header : ℕ → List ℕ
header n = len_begin ∷ (fixed_bytes 8 n ++ len_end ∷ [])

-- The checksum, if wanted, and the dot.
abbrev pub trailer : Bool → List ℕ → List ℕ
trailer true bs = crc_mark ∷ (fixed_bytes 4 (crc32_c bs 0) ++ dot ∷ [])
trailer false bs = dot ∷ []

-- The header of the finished element and the ten bytes left for the next one lie in the buffer:
-- the second by the `16` of `ensure_space`.
unfoldable pub writer_finish : Writer → Bool → Option Writer
writer_finish W checksum = do
  guard (W.depth == 0)
  W1 ← store_bytes (ensure_space W 16) (trailer checksum W.cur)
  guard (leb (ptr W1 + 10) W1.cap)
  some (record W1 { sealed = W1.sealed ++ (header (length W1.cur) ++ W1.cur); cur = [] })

-- `depth` stays as it is.
unfoldable pub writer_discart : Writer → Writer
writer_discart W = record W { sealed = []; cur = [] }

-- What `writer_ptr` points to, over `writer_length` bytes. Both assert that no element is open.
unfoldable pub writer_output : Writer → Option (List ℕ)
writer_output W = do guard (length W.cur == 0); some W.sealed

-- The bytes go ten before `ptr`, so that ten stay free before the new `begin`.
unfoldable pub writer_direct_write : Writer → List ℕ → Option Writer
writer_direct_write W buffer = do
  guard (W.depth == 0)
  guard (length W.cur == 0)
  let W1 = ensure_space W (length buffer)
  guard (leb (ptr W1 + length buffer) W1.cap)
  some (record W1 { sealed = W1.sealed ++ buffer })

-- `struct WriterPosition`
pub record WriterPosition : Type 0 where
  pub begin_offset : ℕ
  pub ptr_offset : ℕ
  pub depth : ℕ

unfoldable pub writer_get_position : Writer → WriterPosition
writer_get_position W = record { begin_offset = begin W; ptr_offset = ptr W; depth = W.depth }

-- The bytes from `real_begin` to `ptr`; those of the header that is not yet written read as 0.
abbrev pub contents : Writer → List ℕ
contents W = W.sealed ++ (replicate 10 0 ++ W.cur)

unfoldable pub writer_set_position : Writer → WriterPosition → Option Writer
writer_set_position W pos = do
  guard (leb pos.begin_offset pos.ptr_offset)
  guard (leb pos.ptr_offset (ptr W))
  some (record W {
    sealed = take (pos.begin_offset - 10) (contents W);
    cur = take (pos.ptr_offset - pos.begin_offset) (drop pos.begin_offset (contents W));
    depth = pos.depth;
  })
