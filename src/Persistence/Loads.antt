-- ===== src/Persistence/Loads.antt =====
-- `load_file` of database.include/database_create.c, and the parts of read.c at the level of the file.
-- A reader's file is what is left of it.
pub mod Loops
pub mod Transactions
pub mod DataFiles
pub mod WholeFiles
pub mod EmptyCommits
pub mod Histories
use hybrid_databases.Base.{
  ℕ, zero, suc, ◌+◌, ◌^◌, ◌<◌, ◌≡◌, Bool, true, false, not, Option, none, some, List, [], ◌∷◌,
  length, ◌==◌, ◌||◌, if◌then◌else◌,
}
use hybrid_databases.Storage.Format.{
  array_begin, array_end, string_mark, ReadStatus, read_fail, read_success, read_end_of_file,
}
use hybrid_databases.Storage.Reader
use hybrid_databases.Storage.Reader.{Reader, reader_finish, reader_next}
use hybrid_databases.Storage.Reader.Files.{reader_begin}
use hybrid_databases.Persistence.Schema.{DatabaseType, footer_mark, dump_begin_mark, dump_end_mark}
use hybrid_databases.Persistence.Loading.{
  Load, Store, Result, got, corrupted, fault, ◌>>=◌, ◌>>◌, return, fail, ensure, r_next, r_number,
  r_skip, r_array, r_check_string, r_check_number,
}
use hybrid_databases.Persistence.Writing.{cbe_node_created, cbe_node_modified, cbe_node_deleted}
use hybrid_databases.Persistence.Reading.{
  schema_check, header_check, read_node_load, read_node_create, read_node_delete, read_node_modify,
}

-- What comes of a part of the file: what is left of it, or a failure.
pub data FileResult {ℓ} (A : Type ℓ) : Type ℓ where
  loaded : A → List ℕ → Store → FileResult A
  failed : Store → FileResult A
  undefined : FileResult A

abbrev pub FileLoad : Type 0 → Type 0
FileLoad A = List ℕ → Store → FileResult A

abbrev pub both : {A B : Type 0} → FileLoad A → (A → FileLoad B) → FileLoad B
both m k file S = elim (m file S) [
  | loaded a file' S' ↦ k a file' S'
  | failed S' ↦ failed S'
  | undefined ↦ undefined
]

-- A body within an element, and the `rFinish` that ends it; `file` is behind the element.
unfoldable pub finishing : {A : Type 0} → Bool → Load A → Reader → List ℕ → Store → FileResult A
finishing checksum body R file S = elim (body R S) [
  | got a R' S' ↦ elim (reader_finish R' checksum) [
    | Reader.ok u ↦ loaded a file S'
    | Reader.fail ↦ failed S'
    | Reader.fault ↦ undefined
  ]
  | corrupted S' ↦ failed S'
  | fault ↦ undefined
]

-- The loop over the operations of a transaction: while the array has not ended.
unfoldable pub load_operation : DatabaseType → Load (Unit {0})
load_operation D = do
  event ← r_number
  (if event == cbe_node_modified
      then read_node_modify D
      else if event == cbe_node_created
      then read_node_create D
      else if event == cbe_node_deleted
      then read_node_delete
      else fail)

unfoldable pub loop_in_array : ℕ → Load (Unit {0}) → Load (Unit {0})
loop_in_array zero body R S = fault
loop_in_array (suc fuel) body R S = elim (reader_next R == array_end) [
  | true ↦ got tt R S
  | false ↦ (do r_array body; loop_in_array fuel body) R S
]

-- Each round takes a byte at least.
unfoldable pub while_in_array : Load (Unit {0}) → Load (Unit {0})
unfolding loop_in_array
while_in_array body R S = loop_in_array (length R.rest + 1) body R S

-- A transaction of a dump. Only the first file is read for it.
unfoldable pub load_dump : DatabaseType → Bool → Bool → Load (Unit {0})
load_dump D first_file dump_on = do
  r_check_number 0
  ensure dump_on
  (if first_file then while_in_array (read_node_load D) else r_skip)

-- The array of a transaction: a regular one, or one of a dump.
unfoldable pub load_transaction : DatabaseType → Bool → Bool → Load (Unit {0})
unfolding load_dump
load_transaction D first_file dump_on = do
  next ← r_next
  (if next == array_begin
      then while_in_array (load_operation D)
      else if next == string_mark
      then load_dump D first_file dump_on
      else fail)

-- The results of `load_file`, with the nodes and, at the end of a file, its `*magic_nr`.
pub data Loaded : Type 0 where
  load_success : ℕ → Store → Loaded
  load_unfinished_file : Store → Loaded
  load_corrupted_file : Store → Loaded
  load_undefined : Loaded

abbrev pub cases :
    {A : Type 0} → FileResult A → (A → List ℕ → Store → Loaded) → (Store → Loaded) → Loaded
cases (loaded a file S) on_done on_failed = on_done a file S
cases (failed S) on_done on_failed = on_failed S
cases undefined on_done on_failed = load_undefined

-- `address` tells where `reader_begin` puts the next element's bytes, by what is left of the file.
module _ (address : List ℕ → ℕ) where
  -- `rBegin`, a body and `rFinish`
  unfoldable pub root : {A : Type 0} → Bool → Load A → FileLoad A
  unfolding finishing
  root checksum body file S =
      let (status, file') = reader_begin (address file) file in
      elim status [
        | read_success R ↦ finishing checksum body R file' S
        | read_end_of_file ↦ failed S
        | read_fail ↦ failed S
      ]

  unfoldable pub read_schema : DatabaseType → FileLoad (Unit {0})
  unfolding root
  read_schema D = root true (schema_check D)

  unfoldable pub read_file_header : DatabaseType → FileLoad ℕ
  unfolding root
  read_file_header D = both (root true (header_check D)) λ u. root false r_number

  -- The three marks; the element is begun by the caller.
  unfoldable pub read_dump_begin : Reader → FileLoad (Unit {0})
  unfolding finishing
  read_dump_begin R = finishing false (r_check_string dump_begin_mark) R

  unfoldable pub read_dump_end : Reader → FileLoad (Unit {0})
  unfolding finishing
  read_dump_end R = finishing false (r_check_string dump_end_mark) R

  unfoldable pub read_file_footer : Reader → FileLoad ℕ
  unfolding finishing root
  read_file_footer R =
      both (finishing false (r_check_string footer_mark) R) λ u. root false r_number

  -- The branch of `load_file` for a string; `k` goes on with the dump on or off. A mark that is
  -- not found leaves the reader as it was, by `reader_set_pos`.
  unfoldable pub load_mark :
      Bool → Reader → List ℕ → Store → (Bool → List ℕ → Store → Loaded) → Loaded
  unfolding read_dump_begin read_dump_end read_file_footer
  load_mark dump_on R file S k =
      cases (read_dump_begin R file S)
        (λ u file1 S1. elim dump_on [ true ↦ load_corrupted_file S1 | false ↦ k true file1 S1 ])
        λ S1.
          cases (read_dump_end R file S)
            (λ u file1 S1. elim dump_on [
              | true ↦ k false file1 S1
              | false ↦ load_corrupted_file S1
            ])
            λ S1.
              cases (read_file_footer R file S) (λ magic file1 S1. load_success magic S1)
                load_corrupted_file

  -- A round of the loop of `load_file`, behind `rMayBegin`; `k` makes the rounds that follow.
  unfoldable pub load_root :
      DatabaseType
      → Bool
      → Bool
      → (Bool → List ℕ → Store → Loaded)
      → ReadStatus Reader × List ℕ
      → Store
      → Loaded
  unfolding finishing load_mark load_transaction
  load_root D first_file dump_on k (read_end_of_file, file) S = load_unfinished_file S
  load_root D first_file dump_on k (read_fail, file) S = load_corrupted_file S
  load_root D first_file dump_on k (read_success R, file) S =
      if reader_next R == array_begin
      then cases (finishing true (r_array (load_transaction D first_file dump_on)) R file S)
          (λ u file1 S1. k dump_on file1 S1) load_corrupted_file
      else if reader_next R == string_mark
      then load_mark dump_on R file S k
      else load_corrupted_file S

  -- Each round takes a byte at least.
  unfoldable pub load_loop : ℕ → DatabaseType → Bool → Bool → List ℕ → Store → Loaded
  unfolding load_root
  load_loop zero D first_file dump_on file S = load_undefined
  load_loop (suc fuel) D first_file dump_on file S =
      load_root D first_file dump_on (λ dump file1 S1. load_loop fuel D first_file dump file1 S1)
        (reader_begin (address file) file) S

  -- `magic_nr` is 0 before the first file.
  unfoldable pub load_file : DatabaseType → ℕ → Bool → List ℕ → Store → Loaded
  unfolding read_file_header root read_dump_begin load_loop
  load_file D magic_nr first_file file S =
      cases (read_file_header D file S)
        (λ new_magic_nr file1 S1. elim (magic_nr == 0 || magic_nr == new_magic_nr) [
          | false ↦ load_corrupted_file S1
          | true ↦ elim first_file [
            | true ↦
                cases (root false (r_check_string dump_begin_mark) file1 S1)
                  (λ u file2 S2. load_loop (length file2 + 1) D true true file2 S2)
                  load_corrupted_file
            | false ↦ load_loop (length file1 + 1) D false false file1 S1
          ]
        ])
        load_corrupted_file

-- What comes of the loop of `load_data` over the data files: the last one goes on, a new one is begun with the
-- number that the last one ends with, or the database is opened for reading only.
pub data LoadedData : Type 0 where
  append_to_last : Store → LoadedData
  create_next : ℕ → Store → LoadedData
  switched_to_read_only : Store → LoadedData
  data_undefined : LoadedData

-- The `switch` of `load_data`, where `last` tells whether the file is the last one; `k` goes on with the next.
unfoldable pub after_file : Bool → (ℕ → Store → LoadedData) → Loaded → LoadedData
after_file last k (load_corrupted_file S) = switched_to_read_only S
after_file true k (load_unfinished_file S) = append_to_last S
after_file false k (load_unfinished_file S) = switched_to_read_only S
after_file last k (load_success magic S) = k magic S
after_file last k load_undefined = data_undefined

abbrev pub is_empty {ℓ} : {A : Type ℓ} → List A → Bool
is_empty [] = true
is_empty (x ∷ xs) = false

-- The loop of `load_data`, over the contents of the files in their order.
unfoldable pub load_files :
    (List ℕ → ℕ) → DatabaseType → Bool → ℕ → List (List ℕ) → Store → LoadedData
unfolding after_file
load_files address D first_file magic_nr [] S = create_next magic_nr S
load_files address D first_file magic_nr (file ∷ files) S =
    after_file (is_empty files) (λ magic S1. load_files address D false magic files S1)
      (load_file address D magic_nr first_file file S)
