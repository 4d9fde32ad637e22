-- ===== src/Persistence/DataFile/Created.antt =====
-- The bytes of new data files.
use hybrid_databases.Base.{
  ℕ, ◌+◌, ◌^◌, ◌≤◌, ◌≡◌, refl, sym, ap, ◌∙◌, arith, Bool, true, false, some, List, [], ◌∷◌, ◌++◌,
  if◌then◌else◌, length, length-append, append-nil, append_assoc,
}
use hybrid_databases.Storage.Items.{encode}
use hybrid_databases.Storage.Writer.{Writer, writer_init, writer_discart}
use hybrid_databases.Storage.Writer.Bounds.{root_bytes, trailer_bounds}
use hybrid_databases.Persistence.Emitting.{num}
use hybrid_databases.Persistence.Schema.{DatabaseType, dump_begin_mark, dump_end_mark}
use hybrid_databases.Persistence.Writing.{write_dump_begin, write_dump_end}
use hybrid_databases.Persistence.Log.Emitted.{IsIdle}
use hybrid_databases.Persistence.Loads.Transactions.{length-root_bytes}
use hybrid_databases.Persistence.Loads.DataFiles.{dump_begin, dump_end, entry_bytes}
use hybrid_databases.Persistence.Loads.WholeFiles.{
  header_item, header_bytes, footer_bytes, start_bytes, data_file, left_open,
}
use hybrid_databases.Persistence.DataFile.{
  no_file, opened, stale, Files, close_current, opening_bytes, database_new_file, first_file,
}
use hybrid_databases.Persistence.DataFile.Pieces.{
  writer_init-IsIdle, number_size, dump_begin_size, dump_end_size, write_file_footer_lem,
  write_file_header_lem, output_lem, discart_lem, mark_lem,
}

-- The bytes of a new file: a header, and the mark of a dump if one begins.
abbrev pub opening : DatabaseType → Bool → ℕ → List ℕ
opening D begins magic = header_bytes D magic (start_bytes begins [])

pub header_bytes-append :
    (D : DatabaseType) (magic : ℕ) (file more : List ℕ)
    → header_bytes D magic file ++ more ≡ header_bytes D magic (file ++ more)
header_bytes-append D magic file more =
    append_assoc (root_bytes true (encode (header_item D)))
      (root_bytes false (encode (num magic)) ++ file) more
    ∙ ap (λ (t : List ℕ). root_bytes true (encode (header_item D)) ++ t)
        (append_assoc (root_bytes false (encode (num magic))) file more)

length-header_bytes :
    (D : DatabaseType) (magic : ℕ)
    → length (header_bytes D magic []) ≤ length (encode (header_item D)) + 50
length-header_bytes D magic = omega (
  arith,
  length-root_bytes true (encode (header_item D)) (root_bytes false (encode (num magic)) ++ []),
  length-root_bytes false (encode (num magic)) [],
  trailer_bounds true (encode (header_item D)),
  trailer_bounds false (encode (num magic)),
  number_size magic,
)

-- A database whose names and version take 2 ^ 57 bytes at most
abbrev pub IsSmall : DatabaseType → Type 0
IsSmall D = length (encode (header_item D)) ≤ 2 ^ 57

pub opening_bytes_lem :
    (D : DatabaseType) (begins : Bool) (magic : ℕ) (W : Writer)
    → IsSmall D
    → IsIdle W
    → W.sealed ≡ []
    → opening_bytes D begins magic W ≡ some (opening D begins magic)
unfolding opening_bytes write_dump_begin
opening_bytes_lem D false magic W small idle empty =
    let none_yet = ap (λ (t : List ℕ). length t) empty in
    let (W1, e1, idle1, s1) = write_file_header_lem D magic idle (omega arith) in
    rw (e1, output_lem idle1, s1, empty) refl
opening_bytes_lem D true magic W small idle empty =
    let none_yet = ap (λ (t : List ℕ). length t) empty in
    let (W1, e1, idle1, s1) = write_file_header_lem D magic idle (omega arith) in
    let size : length W1.sealed ≤ 2 ^ 59 = omega (
      arith,
      ap (λ (t : List ℕ). length t) s1,
      length-append W.sealed (header_bytes D magic []),
      length-header_bytes D magic,
    ) in
    let (W2, e2, idle2, s2) = mark_lem dump_begin_mark dump_begin_size idle1 size in
    rw (e1, e2, output_lem idle2, s2, s1, empty)
      (ap (λ (t : List ℕ). some t)
        (header_bytes-append D magic [] (entry_bytes dump_begin)
          ∙ ap (λ (t : List ℕ). header_bytes D magic t)
              (sym (append-nil (entry_bytes dump_begin)))))

-- For a database that may be written, whose header is not above 2 ^ 57 bytes, and whose current
-- file is open: that file is ended by a footer with the magic number of the new one, and closed.
-- If `open` makes the new file, it is begun with a header with the same number and, where a dump
-- begins, with the mark of its beginning; if it fails, that is reported, and the descriptor stays
-- that of the file that was closed. The index moves on in both cases.
pub database_new_file_lem :
    (D : DatabaseType) (opens begins : Bool) (magic : ℕ) (F : Files) (file : List ℕ)
    → IsSmall D
    → F.read_only ≡ false
    → F.file_desc ≡ opened file
    → database_new_file D opens begins magic F
      ≡ some (
        opens,
        record F {
          current_file_index = F.current_file_index + 1;
          closed_files = (file ++ footer_bytes magic) ∷ F.closed_files;
          file_desc = if opens then opened (opening D begins magic) else stale;
        },
      )
unfolding database_new_file close_current
database_new_file_lem D true begins magic F file small writable current =
    let (W, e, idle, s) = write_file_footer_lem magic writer_init-IsIdle (omega arith) in
    let opens =
      opening_bytes_lem D begins magic (writer_discart W) small (discart_lem idle)
        (unfold writer_discart in refl) in
    rw (writable, current, e, output_lem idle, s, opens) refl
database_new_file_lem D false begins magic F file small writable current =
    let (W, e, idle, s) = write_file_footer_lem magic writer_init-IsIdle (omega arith) in
    rw (writable, current, e, output_lem idle, s) refl

-- `Files` before the first data file
abbrev pub no_files : Files
no_files = record {
  read_only = false;
  current_file_index = 0;
  closed_files = [];
  file_desc = no_file;
}

-- Where a database may be written, has no file yet and a header not above 2 ^ 57 bytes, and the new
-- file can be opened, its first file is a data file that holds an empty dump and is left open.
pub first_file_lem :
    (D : DatabaseType)
    → IsSmall D
    → first_file D true no_files
      ≡ some (
        true,
        record no_files {
          current_file_index = 1;
          file_desc = opened (data_file D 0 true (dump_end ∷ []) left_open);
        },
      )
unfolding first_file database_new_file close_current write_dump_end
first_file_lem D small =
    let opens = opening_bytes_lem D true 0 writer_init small writer_init-IsIdle refl in
    let (W, e, idle, s) = mark_lem dump_end_mark dump_end_size writer_init-IsIdle (omega arith) in
    let last : entry_bytes dump_end ≡ (entry_bytes dump_end ++ []) ++ [] =
      sym (append-nil (entry_bytes dump_end ++ []) ∙ append-nil (entry_bytes dump_end)) in
    let bytes : opening D true 0 ++ entry_bytes dump_end
        ≡ data_file D 0 true (dump_end ∷ []) left_open =
      header_bytes-append D 0 (start_bytes true []) (entry_bytes dump_end)
      ∙ ap (λ (t : List ℕ). header_bytes D 0 t)
          (append_assoc (entry_bytes dump_begin) [] (entry_bytes dump_end)
            ∙ ap (λ (t : List ℕ). entry_bytes dump_begin ++ t) last) in
    rw (opens, e, output_lem idle, s)
      (ap
        (λ (t : List ℕ).
          some (true, record no_files { current_file_index = 1; file_desc = opened t }))
        bytes)
