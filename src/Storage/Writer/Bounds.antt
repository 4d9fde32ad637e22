-- ===== src/Storage/Writer/Bounds.antt =====
-- No writing function stores a byte outside the buffer, and what each of them appends.
use hybrid_databases.Base.{
  ℕ, ◌+◌, ◌^◌, ◌≤◌, ◌<◌, ◌≡◌, arith, ◌∙◌, Option, Bool, true, false, some, List, [], ◌∷◌, ◌++◌,
  append-nil, append_assoc, length, length-append,
}
use hybrid_databases.Base.Options.{◌>>=◌}
use hybrid_databases.Storage.Format.{array_begin, array_end, string_mark, dot, len_end}
use hybrid_databases.Storage.Crc.{crc32_c}
use hybrid_databases.Storage.Codes.{
  fixed_bytes, digits, length_bytes, length-fixed_bytes, length-digits, length-length_bytes,
}
use hybrid_databases.Storage.Writer.{
  Writer, ptr, ensure_space, store_bytes, write_array, write_array_end, write_string, write_number,
  writer_finish, trailer, header,
}

-- The room for the next header is there, and the capacity leaves `size_t` room to grow.
pub record IsValid (W : Writer) : Type 0 where
  pub room : ptr W ≤ W.cap
  pub small : W.cap ≤ 2 ^ 62

-- What `ensure_space` does for `size` bytes.
pub record Ensures (W : Writer) (size : ℕ) (W' : Writer) : Type 0 where
  pub enough : ptr W + size ≤ W'.cap
  pub small : W'.cap ≤ 2 ^ 62
  pub sealed : W'.sealed ≡ W.sealed
  pub cur : W'.cur ≡ W.cur
  pub depth : W'.depth ≡ W.depth

pub ensure_space-Ensures :
    {W : Writer} (size : ℕ)
    → IsValid W
    → ptr W + size ≤ 2 ^ 61
    → Ensures W size (ensure_space W size)
unfolding ensure_space
ensure_space-Ensures size v h = ground arith

pub store_bytes_fit :
    (W : Writer) (bs : List ℕ)
    → ptr W + length bs ≤ W.cap
    → store_bytes W bs ≡ some (record W { cur = W.cur ++ bs })
unfolding store_bytes
store_bytes_fit W [] h = ground (arith, append-nil W.cur)
store_bytes_fit W (b ∷ bs) h = ground (
  arith,
  length-append W.cur (b ∷ []),
  store_bytes_fit (record W { cur = W.cur ++ b ∷ [] }) bs,
  append_assoc W.cur (b ∷ []) bs,
)

-- `bs` is appended to the open element; `dep` is the depth after it.
pub record Appends (W : Writer) (bs : List ℕ) (dep : ℕ) (W' : Writer) : Type 0 where
  pub sealed : W'.sealed ≡ W.sealed
  pub cur : W'.cur ≡ W.cur ++ bs
  pub depth : W'.depth ≡ dep
  pub room : ptr W' ≤ W'.cap
  pub small : W'.cap ≤ 2 ^ 62

pub Appends-IsValid : {W W' : Writer} {bs : List ℕ} {dep : ℕ} → Appends W bs dep W' → IsValid W'
Appends-IsValid a = record { room = a.room; small = a.small }

-- A step that succeeds and appends `bs`, and the rule for two such steps in a row.
abbrev pub Appended : Writer → List ℕ → ℕ → Option Writer → Type 0
Appended W bs dep o = (W' : Writer) × (o ≡ some W') × Appends W bs dep W'

pub ptr-Appends :
    {W W' : Writer} {bs : List ℕ} {dep : ℕ} → Appends W bs dep W' → ptr W' ≡ ptr W + length bs
ptr-Appends {W} {bs} a = ground (arith, length-append W.cur bs)

pub Appends-append :
    {W W1 W2 : Writer} {bs cs : List ℕ} {dep dep' : ℕ}
    → Appends W bs dep W1
    → Appends W1 cs dep' W2
    → Appends W (bs ++ cs) dep' W2
Appends-append {W} {bs} {cs} a b = record {
  sealed = cc (a.sealed, b.sealed);
  cur = b.cur ∙ rw a.cur (append_assoc W.cur bs cs);
  depth = b.depth;
  room = b.room;
  small = b.small;
}

pub Appended-bind :
    {W : Writer} {bs cs : List ℕ} {dep dep' : ℕ} {o : Option Writer} (f : Writer → Option Writer)
    → Appended W bs dep o
    → ((W1 : Writer) → Appends W bs dep W1 → Appended W1 cs dep' (f W1))
    → Appended W (bs ++ cs) dep' (o >>= f)
Appended-bind f (W1, e, a) k = let (W2, e2, b) = k W1 a in (W2, rw e e2, Appends-append a b)

pub Appended-depth :
    {W : Writer} {bs : List ℕ} {dep : ℕ} {o : Option Writer}
    → W.depth ≡ dep
    → Appended W bs W.depth o
    → Appended W bs dep o
Appended-depth d (W', e, a) = (
  W',
  e,
  record { sealed = a.sealed; cur = a.cur; depth = a.depth ∙ d; room = a.room; small = a.small },
)

-- Bytes that were asked for are stored.
pub store_ensured :
    {W : Writer} (size : ℕ) (bs : List ℕ)
    → IsValid W
    → ptr W + size ≤ 2 ^ 61
    → length bs ≤ size
    → (W' : Writer) × (store_bytes (ensure_space W size) bs ≡ some W') × Appends W bs W.depth W'
store_ensured {W} size bs v h k =
    let e : Ensures W size (ensure_space W size) = ensure_space-Ensures size v h in
    let W1 = ensure_space W size in
    (
      record W1 { cur = W1.cur ++ bs },
      store_bytes_fit W1 bs (ground arith),
      ground (arith, length-append W1.cur bs),
    )

pub write_array_lem :
    {W : Writer}
    → IsValid W
    → ptr W + 1 ≤ 2 ^ 61
    → (W' : Writer) × (write_array W ≡ some W') × Appends W (array_begin ∷ []) (W.depth + 1) W'
unfolding write_array
write_array_lem {W} v h =
    let e : Ensures W 1 (ensure_space W 1) = ensure_space-Ensures 1 v h in
    let W1 = ensure_space W 1 in
    (
      record W1 { cur = W1.cur ++ array_begin ∷ []; depth = W1.depth + 1 },
      ground arith,
      ground (arith, length-append W1.cur (array_begin ∷ [])),
    )

pub write_array_end_lem :
    {W : Writer} (dep : ℕ)
    → IsValid W
    → W.depth ≡ dep + 1
    → ptr W + 1 ≤ 2 ^ 61
    → (W' : Writer) × (write_array_end W ≡ some W') × Appends W (array_end ∷ []) dep W'
unfolding write_array_end
write_array_end_lem {W} dep v d h =
    let e : Ensures W 1 (ensure_space W 1) = ensure_space-Ensures 1 v h in
    let W1 = ensure_space W 1 in
    (
      record W1 { cur = W1.cur ++ array_end ∷ []; depth = dep },
      ground arith,
      ground (arith, length-append W1.cur (array_end ∷ [])),
    )

pub write_number_lem :
    {W : Writer} (n : ℕ)
    → IsValid W
    → ptr W + 9 ≤ 2 ^ 61
    → (W' : Writer) × (write_number W n ≡ some W')
      × Appends W ((string_mark + length (digits n)) ∷ digits n) W.depth W'
unfolding write_number
write_number_lem n v h =
    store_ensured 9 ((string_mark + length (digits n)) ∷ digits n) v h
      (omega (arith, length-digits n))

-- The bytes of a string: its length in one to nine bytes, then its contents.
abbrev pub string_bytes : List ℕ → List ℕ
string_bytes bs = length_bytes (length bs + string_mark) ++ bs

pub one_byte_length : (n : ℕ) → n < 128 → length_bytes n ≡ n ∷ []
unfolding length_bytes
one_byte_length n h = ground arith

pub write_string_lem :
    {W : Writer} (bs : List ℕ)
    → IsValid W
    → ptr W + length bs + 9 ≤ 2 ^ 61
    → (W' : Writer) × (write_string W bs ≡ some W') × Appends W (string_bytes bs) W.depth W'
unfolding write_string
write_string_lem {W} bs v h =
    let e : Ensures W (length bs + 9) (ensure_space W (length bs + 9)) =
      ensure_space-Ensures (length bs + 9) v (omega arith) in
    let W1 = ensure_space W (length bs + 9) in
    let n = length bs + string_mark in
    let W2 = record W1 { cur = W1.cur ++ length_bytes n } in
    (
      record W1 { cur = (W1.cur ++ length_bytes n) ++ bs },
      ground (
        arith,
        one_byte_length n,
        length-length_bytes n,
        length-append W1.cur (length_bytes n),
        store_bytes_fit W1 (length_bytes n),
        store_bytes_fit W2 bs,
      ),
      ground (
        arith,
        length-length_bytes n,
        append_assoc W1.cur (length_bytes n) bs,
        length-append (W1.cur ++ length_bytes n) bs,
        length-append W1.cur (length_bytes n),
      ),
    )

pub trailer_bounds : (checksum : Bool) (bs : List ℕ) → length (trailer checksum bs) ≤ 6
trailer_bounds true bs = omega (
  arith,
  length-append (fixed_bytes 4 (crc32_c bs 0)) (dot ∷ []),
  length-fixed_bytes 4 (crc32_c bs 0),
)
trailer_bounds false bs = omega arith

pub length-header : (n : ℕ) → length (header n) ≡ 10
length-header n =
    omega (arith, length-append (fixed_bytes 8 n) (len_end ∷ []), length-fixed_bytes 8 n)

-- A root element as it lies in the file.
abbrev pub root_bytes : Bool → List ℕ → List ℕ
root_bytes checksum bs = header (length (bs ++ trailer checksum bs)) ++ (bs ++ trailer checksum bs)

-- The element that was open is sealed behind those before it.
pub record Finishes (W : Writer) (checksum : Bool) (W' : Writer) : Type 0 where
  pub sealed : W'.sealed ≡ W.sealed ++ root_bytes checksum W.cur
  pub cur : W'.cur ≡ []
  pub depth : W'.depth ≡ 0
  pub room : ptr W' ≤ W'.cap
  pub small : W'.cap ≤ 2 ^ 62

-- With no array open and room up to 2 ^ 61, sealing the root element of a valid writer succeeds
-- within the buffer, puts the element with its header, checksum and dot behind those before it, and
-- leaves room for the next header.
pub writer_finish_lem :
    {W : Writer} (checksum : Bool)
    → IsValid W
    → W.depth ≡ 0
    → ptr W + 16 ≤ 2 ^ 61
    → (W' : Writer) × (writer_finish W checksum ≡ some W') × Finishes W checksum W'
unfolding writer_finish
writer_finish_lem {W} checksum v d h =
    let e : Ensures W 16 (ensure_space W 16) = ensure_space-Ensures 16 v h in
    let W1 = ensure_space W 16 in
    let t = trailer checksum W.cur in
    (
      record W1 {
        sealed = W1.sealed ++ (header (length (W1.cur ++ t)) ++ (W1.cur ++ t));
        cur = [];
      },
      ground (arith, trailer_bounds checksum W.cur, store_bytes_fit W1 t, length-append W1.cur t),
      ground (
        arith,
        trailer_bounds checksum W.cur,
        length-header (length (W.cur ++ t)),
        length-append W.cur t,
        length-append W.sealed (header (length (W.cur ++ t)) ++ (W.cur ++ t)),
        length-append (header (length (W.cur ++ t))) (W.cur ++ t),
      ),
    )
