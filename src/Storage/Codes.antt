-- ===== src/Storage/Codes.antt =====
-- The loops of storage/ that turn numbers into bytes: `_write_number`, the loop of `write_number`,
-- and the little-endian fields of `writer_finish`. Bytes are in the order of their addresses.
use hybrid_databases.Base.{
  ℕ, zero, suc, ◌+◌, ◌-◌, ◌/◌, ◌%◌, ◌^◌, ◌≤◌, ◌≡◌, arith, List, length, [], ◌∷◌, bit_or, ltb, leb,
  ◌==◌, if◌then◌else◌,
}

-- `for (i = 0; i < k; i++, n >>= 8) *p++ = n & 0xFF`
unfoldable pub fixed_bytes : ℕ → ℕ → List ℕ
fixed_bytes zero n = []
fixed_bytes (suc k) n = n % 256 ∷ fixed_bytes k (n / 256)

-- `for (; number; number >>= 8) *W->ptr++ = number & 0xFF`, with a round to spare for each byte
-- of a 64-bit number.
unfoldable pub digits_loop : ℕ → ℕ → List ℕ
digits_loop zero n = []
digits_loop (suc fuel) n =
    let rest = digits_loop fuel (n / 256) in if n == 0 then [] else n % 256 ∷ rest

unfoldable pub digits : ℕ → List ℕ
unfolding digits_loop
digits n = digits_loop 8 n

-- `while (max <= n) { W->ptr[++i] = n & 0xFF; n >>= 8; max >>= 1; }`: the bytes stored, and `i`
-- and `n` as the loop leaves them.
unfoldable pub prefix_loop : ℕ → ℕ → ℕ → ℕ → List ℕ × ℕ × ℕ
prefix_loop zero i max n = ([], i, n)
prefix_loop (suc fuel) i max n =
    let (bytes, i', n') = prefix_loop fuel (i + 1) (max / 2) (n / 256) in
    if leb max n then (n % 256 ∷ bytes, i', n') else ([], i, n)

-- `((~(0xFF >> i)) | n) & 0xFF`
abbrev pub first_byte : ℕ → ℕ → ℕ
first_byte i n = bit_or (255 - 255 / 2 ^ i) n % 256

-- `_write_number`. In the last branch the upper byte is 0, so the loop makes seven rounds at most.
unfoldable pub length_bytes : ℕ → List ℕ
unfolding fixed_bytes prefix_loop
length_bytes n =
    if ltb n 0x80
    then n ∷ []
    else if leb (2 ^ 56) n
    then 0xFF ∷ fixed_bytes 8 n
    else let (bytes, i, m) = prefix_loop 8 0 0x80 n in first_byte i m ∷ bytes

pub length-fixed_bytes : (k n : ℕ) → length (fixed_bytes k n) ≡ k
unfolding fixed_bytes
length-fixed_bytes zero n = omega arith
length-fixed_bytes (suc k) n = omega (arith, length-fixed_bytes k (n / 256))

length-digits_loop : (fuel n : ℕ) → length (digits_loop fuel n) ≤ fuel
unfolding digits_loop
length-digits_loop zero n = omega arith
length-digits_loop (suc fuel) n = ground (arith, length-digits_loop fuel (n / 256))

pub length-digits : (n : ℕ) → length (digits n) ≤ 8
unfolding digits
length-digits n = length-digits_loop 8 n

length-prefix_loop : (fuel i max n : ℕ) → length (prefix_loop fuel i max n).0 ≤ fuel
unfolding prefix_loop
length-prefix_loop zero i max n = omega arith
length-prefix_loop (suc fuel) i max n =
    ground (arith, length-prefix_loop fuel (i + 1) (max / 2) (n / 256))

pub length-length_bytes : (n : ℕ) → length (length_bytes n) ≤ 9
unfolding length_bytes
length-length_bytes n = ground (arith, length-fixed_bytes 8 n, length-prefix_loop 8 0 0x80 n)
