-- ===== src/Tests/StorageRuns.antt =====
-- Runs of storage/.
use hybrid_databases.Base.{
  ℕ, ◌+◌, ◌≡◌, ◌≤◌, ◌<◌, refl, arith, true, false, some, List, [], ◌∷◌, ◌++◌, length, get_or, ◌^◌,
  ◌*◌, ◌-◌,
}
use hybrid_databases.Base.Options.{◌>>=◌}
use hybrid_databases.Storage.Format.{read_success}
use hybrid_databases.Storage.Crc.{crc_table, crc_table-eq-shift_bits, shift_bits}
use hybrid_databases.Storage.Codes.{length_bytes, prefix_loop}
use hybrid_databases.Storage.Writer.{
  Writer, writer_init, writer_finish, trailer, write_string, write_number,
}
use hybrid_databases.Storage.Writer.Bounds.{IsValid, Finishes, root_bytes, writer_finish_lem}
use hybrid_databases.Storage.Reader.{Reader, ok, fail, reader_finish, read_string, read_number}
use hybrid_databases.Storage.Reader.Files.{reader_begin}
use hybrid_databases.Storage.Reader.Lengths.{at}
use hybrid_databases.Storage.Reader.RoundTrips.{
  Stores, read_string-write_string, read_number-write_number,
}
use hybrid_databases.Storage.Reader.Values.{le_value, prefix_loop_ends}
use hybrid_databases.Storage.Items.{Item, Items, str, arr, nil, cons, encode}
use hybrid_databases.Storage.Frames.{reader_begin_lem, reader_finish_lem}
use hybrid_databases.Storage.Rescuer.{process_element}
use hybrid_databases.Storage.Rescuer.Copies.{process_element-encode}

-- An array of a string and an empty array.
abbrev two : Items
two = cons (str (65 ∷ 66 ∷ [])) (cons (arr nil) nil)

abbrev element : Item
element = arr two

abbrev first_bytes : List ℕ
first_bytes = 18 ∷ 65 ∷ 66 ∷ []

writer_init-IsValid : IsValid writer_init
writer_init-IsValid = record { room = omega arith; small = omega arith }

small : length (encode element) ≤ 100
unfolding encode length_bytes
small = omega arith

-- A string, an array that is begun behind it, and two elements in that.
abbrev begun : List Items
begun = cons (str (67 ∷ [])) nil ∷ []

process_element-encode_example :
    (W' : Writer) × (process_element
        (at 4096 [] (encode element ++ trailer true (encode element)) 0)
        writer_init
      ≡ ok W')
    × (W'.sealed ≡ [] ++ root_bytes true (encode element))
    × (W'.cur ≡ [])
    × (W'.depth ≡ 0)
    × IsValid W'
process_element-encode_example =
    process_element-encode element 4096 true writer_init-IsValid refl refl (omega (arith, small))
      (omega (arith, small))

read_string-write_string_example :
    (W' : Writer) × (stored : List ℕ) × (write_string writer_init first_bytes ≡ some W')
    × Stores writer_init stored W'
    × (read_string (at 4096 [] (stored ++ 7 ∷ []) 1)
        ≡ ok (first_bytes, at 4096 ([] ++ stored) (7 ∷ []) 1))
read_string-write_string_example =
    read_string-write_string 4096 [] 1 (7 ∷ []) writer_init-IsValid first_bytes (omega arith)
      (omega arith)

read_number-write_number_example :
    (W' : Writer) × (stored : List ℕ) × (write_number writer_init 300 ≡ some W')
    × Stores writer_init stored W'
    × (read_number (at 4096 [] (stored ++ 7 ∷ []) 0) ≡ ok (300, at 4096 ([] ++ stored) (7 ∷ []) 0))
read_number-write_number_example =
    read_number-write_number 4096 [] 0 (7 ∷ []) writer_init-IsValid 300 (omega arith) (omega arith)
      (omega arith)

reader_begin_lem_example :
    reader_begin 4096 (root_bytes true first_bytes ++ (7 ∷ []))
    ≡ (read_success (at 4096 [] (first_bytes ++ trailer true first_bytes) 0), 7 ∷ [])
reader_begin_lem_example = reader_begin_lem 4096 true first_bytes (7 ∷ []) (omega arith)

reader_finish_lem_example :
    reader_finish (at 4096 first_bytes (trailer false first_bytes) 0) true ≡ fail
reader_finish_lem_example = reader_finish_lem 4096 false true first_bytes (omega arith)

writer_finish_lem_example :
    (W' : Writer) × (writer_finish writer_init true ≡ some W') × Finishes writer_init true W'
writer_finish_lem_example = writer_finish_lem true writer_init-IsValid refl (omega arith)

crc_table-eq-shift_bits_example : get_or crc_table 200 0 ≡ shift_bits 8 (200 * 2 ^ 24)
crc_table-eq-shift_bits_example = crc_table-eq-shift_bits 200 (omega arith)

prefix_loop_ends_example :
    (0 + length (prefix_loop 8 0 128 70000).0 ≡ (prefix_loop 8 0 128 70000).1)
    × ((prefix_loop 8 0 128 70000).1 ≤ 7)
    × ((prefix_loop 8 0 128 70000).2 < 2 ^ (7 - (prefix_loop 8 0 128 70000).1))
    × (le_value (prefix_loop 8 0 128 70000).0 (prefix_loop 8 0 128 70000).2 ≡ 70000)
prefix_loop_ends_example = prefix_loop_ends 7 0 70000 (omega arith) (omega arith)
