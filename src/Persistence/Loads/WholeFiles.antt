-- ===== src/Persistence/Loads/WholeFiles.antt =====
-- `load_file` of a whole data file.
use hybrid_databases.Base.{
  ℕ, suc, ◌+◌, ◌-◌, ◌^◌, ◌<◌, ◌≤◌, ◌≡◌, refl, ◌∙◌, ap, arith, Bool, true, false, List, [], ◌∷◌,
  ◌++◌, length, length-append, append_assoc, ◌==◌, ◌||◌,
}
use hybrid_databases.Storage.Format.{ReadStatus}
use hybrid_databases.Storage.Reader.{Reader}
use hybrid_databases.Storage.Reader.Files.{reader_begin, file_reader_read}
use hybrid_databases.Storage.Writer.{trailer}
use hybrid_databases.Storage.Writer.Bounds.{root_bytes}
use hybrid_databases.Storage.Reader.Lengths.{at}
use hybrid_databases.Storage.Frames.{reader_begin_lem}
use hybrid_databases.Storage.Items.{Item, arr, str, nil, cons, encode}
use hybrid_databases.Persistence.Emitting.{num}
use hybrid_databases.Persistence.Schema.{
  DatabaseType, file_mark, footer_mark, dump_begin_mark, dump_end_mark,
}
use hybrid_databases.Persistence.Loading.{Store, r_number, r_check_string, same_bytes}
use hybrid_databases.Persistence.Loading.Reading.{
  Reads, Reads-array, Reads-number, Reads-check_string, Reads-last, ReadsAll-bind,
}
use hybrid_databases.Persistence.Reading.{header_check}
use hybrid_databases.Persistence.Loads.{
  Loaded, FileResult, cases, load_corrupted_file, loaded, load_success, load_unfinished_file,
  finishing, root, load_loop, load_root, load_mark, load_file, read_file_header, read_file_footer,
}
use hybrid_databases.Persistence.Loads.Transactions.{
  Placed, Placed-rest, Placed-here, finishing-Reads, root-Reads, length-root_bytes, both-loaded,
}
use hybrid_databases.Persistence.Loads.DataFiles.{
  Entry, dump_begin, entry_bytes, all_bytes, has_checksum, entry_item, load_entries, AreValid,
  dump_behind, load_loop-entries, check_fails, mark_reads,
}

-- The two elements of a header, and the two of a footer
abbrev pub header_item : DatabaseType → Item
header_item D = arr (cons (str file_mark) (cons (str D.name) (cons (str D.version) nil)))

abbrev pub header_bytes : DatabaseType → ℕ → List ℕ → List ℕ
header_bytes D magic file =
    root_bytes true (encode (header_item D)) ++ (root_bytes false (encode (num magic)) ++ file)

-- How a file ends: it is still written to, or it was closed by a footer.
pub data Ending : Type 0 where
  left_open : Ending
  closed : ℕ → Ending

abbrev pub footer_bytes : ℕ → List ℕ
footer_bytes magic =
    root_bytes false (encode (str footer_mark)) ++ (root_bytes false (encode (num magic)) ++ [])

abbrev pub closed_bytes : ℕ → List ℕ → List ℕ
closed_bytes magic more =
    root_bytes false (encode (str footer_mark)) ++ (root_bytes false (encode (num magic)) ++ more)

abbrev pub end_bytes : Ending → List ℕ
end_bytes left_open = []
end_bytes (closed magic) = footer_bytes magic

abbrev pub end_result : Ending → Store → Loaded
end_result left_open S = load_unfinished_file S
end_result (closed magic) S = load_success magic S

abbrev pub IsMagic : Ending → Type 0
IsMagic left_open = Unit
IsMagic (closed magic) = magic < 2 ^ 64

begin_footer : same_bytes dump_begin_mark footer_mark ≡ false
unfolding same_bytes dump_begin_mark footer_mark
begin_footer = refl

end_footer : same_bytes dump_end_mark footer_mark ≡ false
unfolding same_bytes dump_end_mark footer_mark
end_footer = refl

header_check-Reads : (D : DatabaseType) (S : Store) → Reads (header_check D) (header_item D) tt S S
unfolding header_check
header_check-Reads D S = Reads-array (
    ReadsAll-bind _ (Reads-check_string file_mark S) (
      ReadsAll-bind _ (Reads-check_string D.name S)
        (Reads-last _ (Reads-check_string D.version S))))

module _ (address : List ℕ → ℕ) (D : DatabaseType) (S : Store) where
  pub read_file_header_lem :
      (magic : ℕ) (file : List ℕ)
      → magic < 2 ^ 64
      → Placed address (header_bytes D magic file)
      → read_file_header address D (header_bytes D magic file) S ≡ loaded magic file S
  unfolding read_file_header
  read_file_header_lem magic file small p =
      let more = root_bytes false (encode (num magic)) ++ file in
      let later = Placed-rest address true (encode (header_item D)) more p in
      both-loaded (root address true (header_check D)) (λ u. root address false r_number)
        (header_bytes D magic file) S
        (root-Reads address true true more (header_check-Reads D S) refl p)
        (root-Reads address false false file (Reads-number magic S small) refl later)

  footer_reads :
      (first on : Bool) (k : Bool → List ℕ → Store → Loaded) (magic base : ℕ) (more : List ℕ)
      → magic < 2 ^ 64
      → base + length (encode (str footer_mark)) + 6 < 2 ^ 63
      → Placed address (root_bytes false (encode (num magic)) ++ more)
      → let R =
          at base [] (encode (str footer_mark) ++ trailer false (encode (str footer_mark))) 0 in
        load_mark address on R (root_bytes false (encode (num magic)) ++ more) S k
        ≡ load_success magic S
  unfolding load_mark
  footer_reads first on k magic base more small h p =
      let file = root_bytes false (encode (num magic)) ++ more in
      let one = check_fails base dump_begin_mark footer_mark file S begin_footer h in
      let two = check_fails base dump_end_mark footer_mark file S end_footer h in
      let three = finishing-Reads base false false file (Reads-check_string footer_mark S) refl h in
      let four = root-Reads address false false more (Reads-number magic S small) refl p in
      let R = at base [] (encode (str footer_mark) ++ trailer false (encode (str footer_mark))) 0 in
      let footer : read_file_footer address R file S ≡ loaded magic more S =
        unfold read_file_footer in
        both-loaded (finishing false (r_check_string footer_mark) R)
          (λ u. root address false r_number) file S three four in
      rw (one, two)
        (ap (λ (r : FileResult ℕ). cases r (λ m f S1. load_success m S1) load_corrupted_file)
          footer)

  -- The footer, whatever stands behind it
  pub closed_reads :
      (first on : Bool) (magic rest : ℕ) (more : List ℕ)
      → magic < 2 ^ 64
      → Placed address (closed_bytes magic more)
      → load_loop address (suc rest) D first on (closed_bytes magic more) S ≡ load_success magic S
  unfolding load_loop
  closed_reads first on magic rest more h p =
      let file = root_bytes false (encode (num magic)) ++ more in
      let bs = encode (str footer_mark) in
      let base = address (closed_bytes magic more) in
      let here = Placed-here address false bs file p in
      let begin = reader_begin_lem base false bs file (omega arith) in
      let k = λ (dump : Bool) (f : List ℕ) (S1 : Store). load_loop address rest D first dump f S1 in
      ap (λ (b : ReadStatus Reader × List ℕ). load_root address D first on k b S) begin
      ∙ mark_reads address D first k base file S on footer_mark here
      ∙ footer_reads first on k magic base more h here (Placed-rest address false bs file p)

  ending_reads :
      (first on : Bool) (ending : Ending) (rest : ℕ)
      → IsMagic ending
      → Placed address (end_bytes ending)
      → load_loop address (suc rest) D first on (end_bytes ending) S ≡ end_result ending S
  unfolding load_loop
  ending_reads first on left_open rest h p = unfold load_root reader_begin file_reader_read in refl
  ending_reads first on (closed magic) rest h p = closed_reads first on magic rest [] h p

length-all_bytes : (es : List Entry) (file : List ℕ) → length es ≤ length (all_bytes es ++ file)
length-all_bytes [] file = omega arith
length-all_bytes (e ∷ es) file =
    let split : (entry_bytes e ++ all_bytes es) ++ file ≡ entry_bytes e ++ (all_bytes es ++ file) =
      append_assoc (entry_bytes e) (all_bytes es) file in
    omega (
      arith,
      ap (λ (t : List ℕ). length t) split,
      length-root_bytes (has_checksum e) (encode (entry_item e)) (all_bytes es ++ file),
      length-all_bytes es file,
    )

-- The first file begins with a dump.
abbrev pub start_bytes : Bool → List ℕ → List ℕ
start_bytes true file = entry_bytes dump_begin ++ file
start_bytes false file = file

abbrev pub data_file : DatabaseType → ℕ → Bool → List Entry → Ending → List ℕ
data_file D magic first es ending =
    header_bytes D magic (start_bytes first (all_bytes es ++ end_bytes ending))

module _ (address : List ℕ → ℕ) (D : DatabaseType) (S : Store) (es : List Entry)
    (tail : List ℕ) where
  abbrev spare_rounds : ℕ
  spare_rounds = length (all_bytes es ++ tail) - length es

  entries_read :
      (first on : Bool)
      → AreValid D first on S es
      → Placed address (all_bytes es ++ tail)
      → load_loop address (length (all_bytes es ++ tail) + 1) D first on (all_bytes es ++ tail) S
        ≡ load_loop address
            (suc spare_rounds)
            D
            first
            (dump_behind on es)
            tail
            (load_entries D first es S)
  entries_read first on v p =
      let fuel : length (all_bytes es ++ tail) + 1 ≡ length es + suc spare_rounds =
        omega (arith, length-all_bytes es tail) in
      load_loop-entries address D first es tail (length (all_bytes es ++ tail) + 1)
        (suc spare_rounds) on S fuel v p

  -- `load_file` comes behind the entries with rounds to spare.
  pub load_file-entries :
      (first : Bool) (magic_nr magic : ℕ)
      → magic < 2 ^ 64
      → (magic_nr == 0 || magic_nr == magic) ≡ true
      → AreValid D first first S es
      → Placed address (header_bytes D magic (start_bytes first (all_bytes es ++ tail)))
      → load_file address D magic_nr first
          (header_bytes D magic (start_bytes first (all_bytes es ++ tail)))
          S
        ≡ load_loop address
            (suc (length (all_bytes es ++ tail) - length es))
            D
            first
            (dump_behind first es)
            tail
            (load_entries D first es S)
  unfolding load_file
  load_file-entries true magic_nr magic small same v p =
      let file = all_bytes es ++ tail in
      let body = entry_bytes dump_begin ++ file in
      let header = read_file_header_lem address D S magic body small p in
      let placed =
        Placed-rest address false (encode (num magic)) body
          (Placed-rest address true (encode (header_item D)) _ p) in
      let first_mark =
        root-Reads address false false file (Reads-check_string dump_begin_mark S) refl placed in
      rw (header, cases, same, first_mark, cases)
        (entries_read true true v
          (Placed-rest address false (encode (str dump_begin_mark)) file placed))
  load_file-entries false magic_nr magic small same v p =
      let file = all_bytes es ++ tail in
      let header = read_file_header_lem address D S magic file small p in
      let placed =
        Placed-rest address false (encode (num magic)) file
          (Placed-rest address true (encode (header_item D)) _ p) in
      rw (header, cases, same) (entries_read false false v placed)

pub Placed-tail :
    (address : List ℕ → ℕ) (D : DatabaseType) (magic : ℕ) (first : Bool) (es : List Entry)
    (tail : List ℕ)
    → Placed address (header_bytes D magic (start_bytes first (all_bytes es ++ tail)))
    → Placed address tail
Placed-tail address D magic true es tail p =
    let one =
      Placed-rest address false (encode (num magic)) _
        (Placed-rest address true (encode (header_item D)) _ p) in
    let two = Placed-rest address false (encode (str dump_begin_mark)) (all_bytes es ++ tail) one in
    λ f h. two f (omega (arith, length-append (all_bytes es) tail))
Placed-tail address D magic false es tail p =
    let one =
      Placed-rest address false (encode (num magic)) _
        (Placed-rest address true (encode (header_item D)) _ p) in
    λ f h. one f (omega (arith, length-append (all_bytes es) tail))

-- What `load_file` makes of a data file: it takes the header, if the magic number is the one that
-- the file before announced, and then the entries one by one, and tells whether the file was closed
-- and with what number.
pub load_file_lem :
    (address : List ℕ → ℕ) (D : DatabaseType) (S : Store) (es : List Entry) (ending : Ending)
    (first : Bool) (magic_nr magic : ℕ)
    → IsMagic ending
    → magic < 2 ^ 64
    → (magic_nr == 0 || magic_nr == magic) ≡ true
    → AreValid D first first S es
    → Placed address (data_file D magic first es ending)
    → load_file address D magic_nr first (data_file D magic first es ending) S
      ≡ end_result ending (load_entries D first es S)
load_file_lem address D S es ending first magic_nr magic ends small same v p =
    load_file-entries address D S es (end_bytes ending) first magic_nr magic small same v p
    ∙ ending_reads address D (load_entries D first es S) first (dump_behind first es) ending
        (length (all_bytes es ++ end_bytes ending) - length es) ends
        (Placed-tail address D magic first es (end_bytes ending) p)
