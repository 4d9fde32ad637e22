-- ===== src/Persistence/DataFile/Pieces.antt =====
-- The elements that data files are made of, between two elements of a writer.
use hybrid_databases.Base.{
  ℕ, ◌+◌, ◌^◌, ◌≤◌, ◌≡◌, refl, ap, ◌∙◌, arith, Bool, true, false, Option, some, List, [], ◌++◌,
  length, length-append, append-nil, append_assoc,
}
use hybrid_databases.Base.Options.{◌>>=◌, >>=-eq-some}
use hybrid_databases.Storage.Items.{Item, str, encode}
use hybrid_databases.Storage.Codes.{length_bytes, length-digits}
use hybrid_databases.Storage.Writer.{
  Writer, writer_init, writer_finish, writer_output, writer_discart, write_string,
}
use hybrid_databases.Storage.Writer.Bounds.{IsValid, root_bytes, trailer_bounds}
use hybrid_databases.Persistence.Emitting.{
  num, number_bytes, Writes, Writes-string, Writes-number, writing,
}
use hybrid_databases.Persistence.Schema.{DatabaseType, footer_mark, dump_begin_mark, dump_end_mark}
use hybrid_databases.Persistence.Writing.{header_body, write_file_header, write_file_footer}
use hybrid_databases.Persistence.Log.Emitted.{IsIdle, Sealed-IsIdle, Writes-finish}
use hybrid_databases.Persistence.Loads.Transactions.{length-root_bytes}
use hybrid_databases.Persistence.Loads.WholeFiles.{header_item, header_bytes, footer_bytes}

-- A step that succeeds between two elements, and puts `bytes` behind those that are sealed.
abbrev pub Written : Writer → List ℕ → Option Writer → Type 0
Written W bytes o = (W' : Writer) × (o ≡ some W') × IsIdle W' × (W'.sealed ≡ W.sealed ++ bytes)

pub writer_init-IsIdle : IsIdle writer_init
writer_init-IsIdle = record { valid = omega arith; cur = refl; depth = refl }

pub element :
    {f : Writer → Option Writer} {x : Item} {W : Writer} (checksum : Bool)
    → Writes f x
    → IsIdle W
    → length W.sealed + length (encode x) ≤ 2 ^ 60
    → Written W (root_bytes checksum (encode x)) (f W >>= λ W1. writer_finish W1 checksum)
element checksum w idle h =
    let c = ap (λ (t : List ℕ). length t) idle.cur in
    let (W', e, s) = Writes-finish checksum w idle (omega (arith, c)) in
    (W', e, Sealed-IsIdle s, s.sealed)

size_sealed :
    (W W1 : Writer) (checksum : Bool) (bs : List ℕ)
    → W1.sealed ≡ W.sealed ++ root_bytes checksum bs
    → length W1.sealed ≤ length W.sealed + length bs + 16
size_sealed W W1 checksum bs e = omega (
  arith,
  ap (λ (t : List ℕ). length t) e,
  length-append W.sealed (root_bytes checksum bs),
  ap (λ (t : List ℕ). length t) (append-nil (root_bytes checksum bs)),
  length-root_bytes checksum bs [],
  trailer_bounds checksum bs,
)

-- Two elements, one behind the other
two_elements :
    {f g : Writer → Option Writer} {x y : Item} {W : Writer} (first second : Bool)
    → Writes f x
    → Writes g y
    → IsIdle W
    → length W.sealed + length (encode x) + length (encode y) ≤ 2 ^ 59
    → Written W
        (root_bytes first (encode x) ++ (root_bytes second (encode y) ++ []))
        (do W1 ← f W; W2 ← writer_finish W1 first; W3 ← g W2; writer_finish W3 second)
two_elements {f} {g} {x} {y} {W} first second a b idle h =
    let (W2, e, idle2, s2) = element first a idle (omega arith) in
    let (W1, e1, e2) = >>=-eq-some (f W) (λ V. writer_finish V first) e in
    let (W4, e4, idle4, s4) =
      element second b idle2 (omega (arith, size_sealed W W2 first (encode x) s2)) in
    (
      W4,
      rw (e1, e2) e4,
      idle4,
      s4
          ∙ rw (s2, append-nil)
              (append_assoc W.sealed (root_bytes first (encode x)) (root_bytes second (encode y))),
    )

pub number_size : (n : ℕ) → length (encode (num n)) ≤ 9
number_size n = omega (arith, ap (λ (t : List ℕ). length t) (number_bytes n), length-digits n)

footer_size : length (encode (str footer_mark)) ≤ 20
unfolding encode footer_mark length_bytes
footer_size = omega arith

pub dump_begin_size : length (encode (str dump_begin_mark)) ≤ 20
unfolding encode dump_begin_mark length_bytes
dump_begin_size = omega arith

pub dump_end_size : length (encode (str dump_end_mark)) ≤ 20
unfolding encode dump_end_mark length_bytes
dump_end_size = omega arith

pub write_file_footer_lem :
    {W : Writer} (magic : ℕ)
    → IsIdle W
    → length W.sealed ≤ 2 ^ 58
    → Written W (footer_bytes magic) (write_file_footer magic W)
unfolding write_file_footer
write_file_footer_lem magic idle h =
    two_elements false false (Writes-string footer_mark) (Writes-number magic) idle
      (omega (arith, footer_size, number_size magic))

header_body-Writes : (D : DatabaseType) → Writes (header_body D) (header_item D)
unfolding header_body
header_body-Writes D = search writing

pub write_file_header_lem :
    {W : Writer} (D : DatabaseType) (magic : ℕ)
    → IsIdle W
    → length W.sealed + length (encode (header_item D)) ≤ 2 ^ 58
    → Written W (header_bytes D magic []) (write_file_header D magic W)
unfolding write_file_header
write_file_header_lem D magic idle h =
    two_elements true false (header_body-Writes D) (Writes-number magic) idle
      (omega (arith, number_size magic))

pub output_lem : {W : Writer} → IsIdle W → writer_output W ≡ some W.sealed
unfolding writer_output
output_lem {W} idle = rw idle.cur refl

pub discart_lem : {W : Writer} → IsIdle W → IsIdle (writer_discart W)
unfolding writer_discart
discart_lem {W} idle =
    let v : IsValid W = idle.valid in let c = idle.cur in let d = idle.depth in ground arith

pub mark_lem :
    {W : Writer} (mark : List ℕ)
    → length (encode (str mark)) ≤ 20
    → IsIdle W
    → length W.sealed ≤ 2 ^ 59
    → Written W
        (root_bytes false (encode (str mark)))
        (do W1 ← write_string W mark; writer_finish W1 false)
mark_lem mark small idle h = element false (Writes-string mark) idle (omega arith)
