-- ===== src/Storage/Reader/Values.antt =====
-- Little-endian values: what the reading loops make of the bytes that the writing loops store.
use hybrid_databases.Base.{
  ℕ, zero, suc, ◌+◌, ◌-◌, ◌*◌, ◌/◌, ◌%◌, ◌^◌, ◌≤◌, ◌<◌, ◌≡◌, refl, arith, some, List, [], ◌∷◌, ◌++◌,
  ◌∙◌, sym, ap, length, take, get_elem?, take-append, length-append, Bool, true, ◌==◌, ◌||◌, ◌&&◌,
  ltb, leb, bit_and, each_below, each_below_lem,
}
use hybrid_databases.Storage.Codes.{fixed_bytes, digits, digits_loop, prefix_loop, first_byte}
use hybrid_databases.Storage.Reader.{ok, read_le, leading_ones}
use native.Mathlib.Decide.{dec_lt}

-- The number with the digits `bytes`, lowest first, over the higher part `high`.
unfoldable pub le_value : List ℕ → ℕ → ℕ
le_value [] high = high
le_value (b ∷ bs) high = le_value bs high * 256 + b

pub le-le_value : (bs : List ℕ) (high : ℕ) → high ≤ le_value bs high
unfolding le_value
le-le_value [] high = omega arith
le-le_value (b ∷ bs) high = omega (arith, le-le_value bs high)

le_value-take-suc :
    (bs : List ℕ) (i b high : ℕ)
    → get_elem? bs i ≡ some b
    → le_value (take (suc i) bs) high ≡ le_value (take i bs) (high * 256 + b)
unfolding le_value
le_value-take-suc [] i b high h = cc
le_value-take-suc (x ∷ xs) zero b high h = ground arith
le_value-take-suc (x ∷ xs) (suc i) b high h = ground (arith, le_value-take-suc xs i b high)

get_elem?-lt : (xs : List ℕ) (i : ℕ) → i < length xs → (b : ℕ) × (get_elem? xs i ≡ some b)
get_elem?-lt [] i h = elim h [ ]
get_elem?-lt (x ∷ xs) zero h = (x, refl)
get_elem?-lt (x ∷ xs) (suc i) h = get_elem?-lt xs i (omega arith)

-- The loop over the first `i` bytes, where they and the number so far stay in 64 bits.
read_le-take :
    (bs : List ℕ) (i high : ℕ)
    → i ≤ length bs
    → le_value (take i bs) high < 2 ^ 64
    → read_le bs i high ≡ ok (le_value (take i bs) high)
unfolding read_le
read_le-take bs zero high h v = unfold le_value in refl
read_le-take bs (suc i) high h v =
    let (b, e) = get_elem?-lt bs i h in
    let step : le_value (take (suc i) bs) high ≡ le_value (take i bs) (high * 256 + b) =
      le_value-take-suc bs i b high e in
    ground
      (arith, step, le-le_value (take i bs) (high * 256 + b), read_le-take bs i (high * 256 + b))

-- The loop reads the bytes `bs` that lie at `ptr`, whatever follows them.
pub read_le-append :
    (bs rest : List ℕ) (high : ℕ)
    → le_value bs high < 2 ^ 64
    → read_le (bs ++ rest) (length bs) high ≡ ok (le_value bs high)
read_le-append bs rest high v =
    read_le-take (bs ++ rest) (length bs) high (omega (arith, length-append bs rest))
      (rw take-append v)
    ∙ rw take-append

-- Every number that fits in `k` bytes is read back from the `k` bytes stored for it.
pub le_value-fixed_bytes : (k n : ℕ) → n < 256 ^ k → le_value (fixed_bytes k n) 0 ≡ n
unfolding le_value fixed_bytes
le_value-fixed_bytes zero n h = omega arith
le_value-fixed_bytes (suc k) n h = omega (arith, le_value-fixed_bytes k (n / 256) (omega arith))

le_value-digits_loop : (fuel n : ℕ) → n < 256 ^ fuel → le_value (digits_loop fuel n) 0 ≡ n
unfolding le_value digits_loop
le_value-digits_loop zero n h = omega arith
le_value-digits_loop (suc fuel) n h =
    ground (arith, le_value-digits_loop fuel (n / 256) (omega arith))

-- The eight rounds are enough for a 64-bit number.
pub le_value-digits : (n : ℕ) → n < 2 ^ 64 → le_value (digits n) 0 ≡ n
unfolding digits
le_value-digits n h = le_value-digits_loop 8 n h

le_value-prefix_loop :
    (fuel i max n : ℕ)
    → let (bytes, j, m) = prefix_loop fuel i max n in
      (le_value bytes m ≡ n) × (j ≡ i + length bytes)
unfolding le_value prefix_loop
le_value-prefix_loop zero i max n = omega arith
le_value-prefix_loop (suc fuel) i max n =
    ground (arith, le_value-prefix_loop fuel (i + 1) (max / 2) (n / 256))

prefix_loop_last : (fuel i max n : ℕ) → n < max → prefix_loop (suc fuel) i max n ≡ ([], i, n)
unfolding prefix_loop
prefix_loop_last fuel i max n h = ground arith

prefix_loop_more :
    (fuel i max n : ℕ)
    → max ≤ n
    → let (bytes, j, m) = prefix_loop fuel (i + 1) (max / 2) (n / 256) in
      prefix_loop (suc fuel) i max n ≡ (n % 256 ∷ bytes, j, m)
unfolding prefix_loop
prefix_loop_more fuel i max n h = ground arith

prefix_loop_stops :
    (d i n : ℕ)
    → i + d ≡ 7
    → n < 256 ^ d
    → let (bytes, j, m) = prefix_loop (suc d) i (2 ^ d) n in (j ≤ 7) × (m < 2 ^ (7 - j))
prefix_loop_stops zero i n e h =
    let z : n ≡ 0 = omega arith in
    rw (prefix_loop_last 0 i (2 ^ 0) n (omega arith))
      (omega arith, rw z (let f : i ≡ 7 = omega arith in rw f (omega arith)))
prefix_loop_stops (suc d) i n e h = elim (dec_lt n (2 ^ suc d)) [
  | yes stop ↦
      rw (prefix_loop_last (suc d) i (2 ^ suc d) n stop)
        (omega arith, let f : 7 - i ≡ suc d = omega arith in rw f stop)
  | no more ↦ rw (prefix_loop_more (suc d) i (2 ^ suc d) n (omega arith)) (
      let half : 2 ^ suc d / 2 ≡ 2 ^ d = omega arith in
      rw half (prefix_loop_stops d (i + 1) (n / 256) (omega arith) (omega arith)))
]

-- With `max` at `2 ^ d`, `i` and `d` together 7, and a number of `d` bytes at most, `d + 1` rounds
-- reach the end of the loop: the counter, which starts at `i`, has gone up by one for each byte
-- stored and is 7 at most; what is left of the number is below the limit that belongs to the
-- counter; and the bytes stored, the lowest first, with what is left above them are the number.
pub prefix_loop_ends :
    (d i n : ℕ)
    → i + d ≡ 7
    → n < 256 ^ d
    → let (bytes, j, m) = prefix_loop (suc d) i (2 ^ d) n in
      (i + length bytes ≡ j) × (j ≤ 7) × (m < 2 ^ (7 - j)) × (le_value bytes m ≡ n)
prefix_loop_ends d i n e h =
    let (value, count) = le_value-prefix_loop (suc d) i (2 ^ d) n in
    let (few, small) = prefix_loop_stops d i n e h in (sym count, few, small, value)

pub prefix_loop_starts : (n : ℕ) → 128 ≤ n → 0 < (prefix_loop 8 0 0x80 n).1
prefix_loop_starts n h = omega (
  arith,
  le_value-prefix_loop 8 0 0x80 n,
  ap (λ (t : List ℕ × ℕ × ℕ). length t.0) (prefix_loop_more 7 0 0x80 n h),
)

-- The first byte tells the number of bytes that follow by its leading ones, and keeps the upper
-- bits of the number.
first_byte_test : ℕ → ℕ → Bool
unfolding leading_ones
first_byte_test j m =
    let f = first_byte j m in
    (j == 0 || leb (2 ^ (7 - j)) m)
    || (leading_ones 8 f == j && (bit_and f (255 / 2 ^ j) == m && (leb 128 f && ltb f 255)))

first_byte_table : each_below (λ j. each_below (first_byte_test j) 128) 8 ≡ true
unfolding each_below first_byte_test
first_byte_table = refl

power_table : each_below (λ j. leb (2 ^ (7 - j)) 128) 8 ≡ true
unfolding each_below
power_table = refl

pub first_byte_lem :
    (j m : ℕ)
    → 0 < j
    → j ≤ 7
    → m < 2 ^ (7 - j)
    → let f = first_byte j m in
      (leading_ones 8 f ≡ j) × (bit_and f (255 / 2 ^ j) ≡ m) × (128 ≤ f) × (f < 255)
unfolding first_byte_test
first_byte_lem j m p q r =
    let small : leb (2 ^ (7 - j)) 128 ≡ true = each_below_lem _ 8 j (omega arith) power_table in
    let column : each_below (first_byte_test j) 128 ≡ true =
      each_below_lem _ 8 j (omega arith) first_byte_table in
    let entry : first_byte_test j m ≡ true =
      each_below_lem (first_byte_test j) 128 m (ground arith) column in
    ground (arith, entry)
