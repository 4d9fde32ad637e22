-- ===== src/Storage/Frames.antt =====
-- Root elements: what `writer_finish` seals, `reader_begin` finds and `reader_finish` accepts.
use hybrid_databases.Base.{
  ℕ, ◌+◌, ◌^◌, ◌<◌, ◌≡◌, refl, arith, List, [], ◌∷◌, ◌++◌, length, length-append, append_assoc,
  take-append, drop-append, Bool, true, false, not, ◌&&◌, if◌then◌else◌, get_or,
}
use hybrid_databases.Storage.Format.{dot, len_begin, len_end, read_success}
use hybrid_databases.Storage.Codes.{fixed_bytes, length-fixed_bytes}
use hybrid_databases.Storage.Crc.{crc32_c, crc32_c-lt}
use hybrid_databases.Storage.Writer.{header, trailer}
use hybrid_databases.Storage.Writer.Bounds.{root_bytes, length-header, trailer_bounds}
use hybrid_databases.Storage.Reader.{ok, fail, ensure_space, reader_finish, finish_crc}
use hybrid_databases.Storage.Reader.Files.{file_reader_read, read_header, reader_begin}
use hybrid_databases.Storage.Reader.Values.{read_le-append, le_value-fixed_bytes}
use hybrid_databases.Storage.Reader.Lengths.{at}

read_available :
    (bs more : List ℕ) → file_reader_read (bs ++ more) (length bs) ≡ (read_success bs, more)
unfolding file_reader_read
read_available bs more = ground (arith, take-append bs more, drop-append bs more)

get_or_tail : (bs : List ℕ) (b d : ℕ) → get_or (bs ++ b ∷ []) (length bs) d ≡ b
get_or_tail [] b d = refl
get_or_tail (x ∷ bs) b d = get_or_tail bs b d

read_header_lem : (n : ℕ) → n < 2 ^ 64 → read_header (header n) ≡ ok n
unfolding read_header
read_header_lem n h = ground (
  arith,
  get_or_tail (len_begin ∷ fixed_bytes 8 n) len_end 0,
  length-fixed_bytes 8 n,
  read_le-append (fixed_bytes 8 n) (len_end ∷ []) 0,
  le_value-fixed_bytes 8 n,
)

-- `reader_begin` takes one root element off the file and stands at its first byte.
pub reader_begin_lem :
    (base : ℕ) (checksum : Bool) (bs more : List ℕ)
    → length bs + 6 < 2 ^ 64
    → reader_begin base (root_bytes checksum bs ++ more)
      ≡ (read_success (at base [] (bs ++ trailer checksum bs) 0), more)
unfolding reader_begin
reader_begin_lem base checksum bs more h =
    let t = bs ++ trailer checksum bs in
    let n = length t in
    ground (
      arith,
      trailer_bounds checksum bs,
      length-append bs (trailer checksum bs),
      length-header n,
      append_assoc (header n) t more,
      read_available (header n) (t ++ more),
      read_header_lem n,
      read_available t more,
    )

-- An element that was written passes `reader_finish`, unless a checksum is asked for and none was
-- written.
pub reader_finish_lem :
    (base : ℕ) (checksum wanted : Bool) (bs : List ℕ)
    → base + length bs + 6 < 2 ^ 63
    → reader_finish (at base bs (trailer checksum bs) 0) wanted
      ≡ (if wanted && not checksum then fail else ok tt)
unfolding reader_finish finish_crc ensure_space
reader_finish_lem base true wanted bs h =
    let c = crc32_c bs 0 in
    ground (
      arith,
      read_le-append (fixed_bytes 4 c) (dot ∷ []) 0,
      length-fixed_bytes 4 c,
      le_value-fixed_bytes 4 c,
      crc32_c-lt bs 0,
      take-append (fixed_bytes 4 c) (dot ∷ []),
      drop-append (fixed_bytes 4 c) (dot ∷ []),
      length-append (fixed_bytes 4 c) (dot ∷ []),
    )
reader_finish_lem base false wanted bs h = ground arith
