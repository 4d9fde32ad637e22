-- ===== src/Storage/Reader.antt =====
-- storage/storage.include/reader.c and the reading half of inline.h.
pub mod Files
pub mod Values
pub mod Lengths
pub mod RoundTrips
use hybrid_databases.Base.{
  ℕ, zero, suc, ◌+◌, ◌-◌, ◌*◌, ◌/◌, ◌%◌, ◌^◌, Bool, true, false, not, Option, none, some, List, [],
  ◌∷◌, ◌++◌, length, ltb, leb, ◌==◌, if◌then◌else◌, take, drop, get_elem?, bit_and, ◌&&◌, ◌||◌,
}
use hybrid_databases.Storage.Format.{array_begin, array_end, dot, crc_mark, string_mark, error_mark}
use hybrid_databases.Storage.Crc.{crc32_c}

-- `done` are the bytes from `begin` to `ptr`, `rest` those from `ptr` to `end`, and `base` is the
-- address of the first.
pub record Reader : Type 0 where
  pub base : ℕ
  pub done : List ℕ
  pub rest : List ℕ
  pub depth : ℕ

-- `fail` is `false` or `ST_READ_FAIL`. The callers then give the element up or put `ptr` back by
-- `reader_set_pos`, so a failure keeps no reader. `fault` is behaviour that C leaves undefined: a
-- pointer past the end of the address space, a byte read outside the buffer, or a failed assertion.
pub data Outcome {ℓ} (A : Type ℓ) : Type ℓ where
  ok : A → Outcome A
  fail : Outcome A
  fault : Outcome A

infixl 5 ◌>>=◌ ◌>>◌
abbrev pub ◌>>=◌ {ℓ κ} : {A : Type ℓ} {B : Type κ} → Outcome A → (A → Outcome B) → Outcome B
ok a >>= f = f a
fail >>= f = fail
fault >>= f = fault

abbrev pub ◌>>◌ {ℓ} : {B : Type ℓ} → Outcome (Unit {0}) → Outcome B → Outcome B
m >> k = m >>= λ _. k

abbrev pub check : Bool → Outcome (Unit {0})
check true = ok tt
check false = fail

abbrev pub assert : Bool → Outcome (Unit {0})
assert true = ok tt
assert false = fault

-- `_reader_ensure_space(size)`: `R->ptr + size > R->end` on 64-bit addresses.
unfoldable pub ensure_space : Reader → ℕ → Outcome (Unit {0})
ensure_space R size = do
  assert (ltb (R.base + length R.done + size) (2 ^ 64))
  check (leb size (length R.rest))

-- `*R->ptr++`
abbrev pub next_byte : Reader → Outcome (ℕ × Reader)
next_byte R = elim R.rest [
  | [] ↦ fault
  | b ∷ bs ↦ ok (b, record R { done = R.done ++ b ∷ []; rest = bs })
]

-- `R->ptr += n`, where the bytes passed over are known to be there
abbrev pub advance : Reader → ℕ → Reader
advance R n = record R { done = R.done ++ take n R.rest; rest = drop n R.rest }

-- `for (int i = n - 1; i >= 0; i--) acc = (acc << 8) | R->ptr[i]` on 64 bits
unfoldable pub read_le : List ℕ → ℕ → ℕ → Outcome ℕ
read_le bytes zero acc = ok acc
read_le bytes (suc i) acc = elim (get_elem? bytes i) [
  | none ↦ fault
  | some b ↦ read_le bytes i ((acc * 256 + b) % 2 ^ 64)
]

unfoldable pub reader_next : Reader → ℕ
reader_next R = elim R.rest [
  | [] ↦ error_mark
  | b ∷ bs ↦
      if b == array_begin || (b == array_end || (b == crc_mark || b == dot))
      then b
      else if leb string_mark b
      then string_mark
      else error_mark
]

unfoldable pub read_array : Reader → Outcome Reader
read_array R = do
  ensure_space R 1
  (b, R1) ← next_byte (record R { depth = R.depth + 1 })
  check (b == array_begin)
  ok R1

unfoldable pub read_array_end : Reader → Outcome Reader
read_array_end R = do
  ensure_space R 1
  assert (ltb 0 R.depth)
  (b, R1) ← next_byte (record R { depth = R.depth - 1 })
  check (b == array_end)
  ok R1

-- `for (unsigned i = first; i & 0x80; i <<= 1) l++`: of a byte other than 0xFF it makes seven
-- rounds at most.
unfoldable pub leading_ones : ℕ → ℕ → ℕ
leading_ones zero i = 0
leading_ones (suc fuel) i =
    let more = leading_ones fuel (i * 2) in if bit_and i 0x80 == 0 then 0 else more + 1

-- The length of a string as it is stored, with `ptr` behind it. Nothing tests that the `l` bytes
-- of the last branch are there.
unfoldable pub read_length : Reader → ℕ → Outcome (ℕ × Reader)
read_length R first =
    if ltb first 0x80
    then ok (first, R)
    else if first == 0xFF
    then (do ensure_space R 8; len ← read_le R.rest 8 0; ok (len, advance R 8))
    else (let l = leading_ones 8 first in
        do len ← read_le R.rest l (bit_and first (0xFF / 2 ^ l)); ok (len, advance R l))

-- The contents stand for the pointer and the length that the source returns. `len -= ST_STRING`
-- wraps.
unfoldable pub read_string : Reader → Outcome (List ℕ × Reader)
read_string R = do
  ensure_space R 1
  (first, R1) ← next_byte R
  check (leb string_mark first)
  (stored, R2) ← read_length R1 first
  let len = (stored + 2 ^ 64 - string_mark) % 2 ^ 64
  ensure_space R2 len
  ok (take len R2.rest, advance R2 len)

unfoldable pub read_number : Reader → Outcome (ℕ × Reader)
read_number R = do
  ensure_space R 1
  (first, R1) ← next_byte R
  check (leb string_mark first && leb first (string_mark + 8))
  let l = first - string_mark
  ensure_space R1 l
  n ← read_le R1.rest l 0
  ok (n, advance R1 l)

abbrev pub reader_get_pos : Reader → ℕ
reader_get_pos R = length R.done

abbrev pub reader_set_pos : Reader → ℕ → Reader
reader_set_pos R pos = record R {
  done = take pos (R.done ++ R.rest);
  rest = drop pos (R.done ++ R.rest);
}

-- The branch of `reader_finish` at the mark of a checksum; `R` stands at the mark, `R1` behind it.
unfoldable pub finish_crc : Reader → Reader → Outcome (Unit {0})
finish_crc R R1 = do
  ensure_space R 6
  orig_crc ← read_le R1.rest 4 0
  (last, R2) ← next_byte (advance R1 4)
  check (length R2.rest == 0 && (last == dot && crc32_c R.done 0 == orig_crc))

-- The depth must be 0; a checksum that is there is compared whether or not it is asked for.
unfoldable pub reader_finish : Reader → Bool → Outcome (Unit {0})
reader_finish R checksum = do
  assert (R.depth == 0)
  ensure_space R 1
  (b, R1) ← next_byte R
  (if b == crc_mark
      then finish_crc R R1
      else check (length R1.rest == 0 && (b == dot && not checksum)))

-- The loop of `reader_skip`; each round passes over a byte at least.
unfoldable pub skip_loop : ℕ → ℕ → Reader → Outcome Reader
skip_loop zero depth R = fault
skip_loop (suc fuel) depth R =
    let in_array = (do R1 ← read_array R; skip_loop fuel (depth + 1) R1) in
    let past_string = (do (bs, R1) ← read_string R; skip_loop fuel depth R1) in
    let past_end = (do R1 ← read_array_end R; skip_loop fuel (depth - 1) R1) in
    if reader_next R == array_begin
    then in_array
    else if reader_next R == string_mark
    then past_string
    else if reader_next R == array_end
    then (if depth == 0 then ok R else past_end)
    else fail

unfoldable pub reader_skip : Reader → Outcome Reader
reader_skip R = skip_loop (length R.rest + 1) 0 R
