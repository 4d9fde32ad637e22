-- ===== src/Persistence/Startup.antt =====
-- The start of a database: `get_db_files` and `load_data` of database.include/database_create.c,
-- over the contents of a directory. What `scandir` of the C library sorts is sorted here by
-- insertion; file numbers are those that fit the source's `int`.
pub mod FileNames
pub mod Closed
pub mod LostCommits
pub mod Restart
use hybrid_databases.Base.{
  ℕ, zero, suc, ◌+◌, ◌-◌, ◌*◌, Bool, true, false, not, ◌&&◌, ◌||◌, Option, none, some, List, [],
  ◌∷◌, ◌++◌, map, length, leb, ◌==◌, if◌then◌else◌, drop,
}
use hybrid_databases.Base.Options.{◌>>=◌}
use hybrid_databases.Storage.Writer.{writer_init, writer_output}
use hybrid_databases.Persistence.Schema.{DatabaseType}
use hybrid_databases.Persistence.Writing.{write_schema}
use hybrid_databases.Persistence.Loading.{Store, same_bytes}
use hybrid_databases.Persistence.Loads.{
  FileResult, loaded, failed, undefined, LoadedData, append_to_last, create_next,
  switched_to_read_only, data_undefined, load_files, read_schema, is_empty,
}
use hybrid_databases.Persistence.DataFile.{
  Descriptor, no_file, opened, Files, database_new_file, first_file,
}

-- A directory entry: a name and what the file holds.
abbrev pub File : Type 0
File = List ℕ × List ℕ

-- The contents of `<name>.schema`, if it is there, and the other entries in the order in which the
-- directory is read.
pub record Directory : Type 0 where
  pub schema : Option (List ℕ)
  pub entries : List File

abbrev pub is_digit : ℕ → Bool
is_digit c = leb 48 c && leb c 57

unfoldable pub all_digits : List ℕ → Bool
all_digits [] = true
all_digits (c ∷ name) = is_digit c && all_digits name

-- A name is that of a data file if it is `db_name` followed by digits.
unfoldable pub db_files_select : List ℕ → List ℕ → Bool
unfolding all_digits
db_files_select [] name = all_digits name
db_files_select (c ∷ db_name) [] = false
db_files_select (c ∷ db_name) (d ∷ name) = (c == d) && db_files_select db_name name

-- `atol`, up to the first byte that is no digit; the numbers in the names are taken to fit a `long`
unfoldable pub atol : ℕ → List ℕ → ℕ
atol value [] = value
atol value (c ∷ name) = if is_digit c then atol (value * 10 + (c - 48)) name else value

unfoldable pub file_number : List ℕ → List ℕ → ℕ
unfolding atol
file_number db_name name = atol 0 (drop (length db_name) name)

-- Whether `db_files_sort` puts the first name before the second one, or takes them for equal.
unfoldable pub db_files_sort : List ℕ → File → File → Bool
unfolding file_number
db_files_sort db_name a b = leb (file_number db_name a.0) (file_number db_name b.0)

unfoldable pub put_file : List ℕ → File → List File → List File
unfolding db_files_sort
put_file db_name f [] = f ∷ []
put_file db_name f (g ∷ files) =
    if db_files_sort db_name f g then f ∷ g ∷ files else g ∷ put_file db_name f files

-- `scandir` with these two functions
unfoldable pub get_db_files : List ℕ → List File → List File
unfolding db_files_select put_file
get_db_files db_name [] = []
get_db_files db_name (f ∷ entries) =
    let files = get_db_files db_name entries in
    if db_files_select db_name f.0 then put_file db_name f files else files

module _ {ℓ} {A : Type ℓ} where
  abbrev pub last : A → List A → A
  last x [] = x
  last x (y ∷ ys) = last y ys

-- The contents of all files but the last one, the last first
abbrev pub closed_before : List (List ℕ) → File → List File → List (List ℕ)
closed_before contents f [] = contents
closed_before contents f (g ∷ files) = closed_before (f.1 ∷ contents) g files

-- What comes of `load_data`: an error, or the bytes of the schema and the nodes, with the files if
-- the database can be written.
pub data Started : Type 0 where
  not_started : Started
  read_only : Store → Started
  writing_to : (schema : List ℕ) → Files → Store → Started
  start_undefined : Started

-- The index of the file that is written to, behind the check that none is missing.
unfoldable pub check_files : List ℕ → List File → Option ℕ
unfolding file_number
check_files db_name [] = some 0
check_files db_name (f ∷ files) =
    let highest = file_number db_name (last f files).0 in
    if highest == file_number db_name f.0 + length files then some highest else none

-- The files before `_database_new_file` or `open`: the last one is not among those that are closed.
abbrev pub known_files : ℕ → List File → Files
known_files index [] = record {
  read_only = false;
  current_file_index = index;
  closed_files = [];
  file_desc = no_file;
}
known_files index (f ∷ files) = record {
  read_only = false;
  current_file_index = index;
  closed_files = closed_before [] f files;
  file_desc = no_file;
}

-- `open(buffer, O_WRONLY | O_APPEND)`, where `buffer` names the last file that was loaded. A file
-- that was made before is left behind with what it holds.
abbrev pub reopen : List ℕ → Files → Files
reopen file F = record F { file_desc = opened file }

abbrev pub reopened : List ℕ → List ℕ → Option (Bool × Files) → Store → Started
reopened schema file (some (true, F)) S = writing_to schema (reopen file F) S
reopened schema file (some (false, F)) S = not_started
reopened schema file none S = start_undefined

abbrev pub made_first : List ℕ → Option (Bool × Files) → Store → Started
made_first schema (some (true, F)) S = writing_to schema F S
made_first schema (some (false, F)) S = not_started
made_first schema none S = start_undefined

-- The end of `load_data`. The `else` that opens the last file belongs to `if (!files_count)`: with
-- files, the last one of them is opened also where a new one was made.
unfoldable pub open_last : DatabaseType → Bool → ℕ → List ℕ → List File → LoadedData → Started
open_last D opens index schema files (switched_to_read_only S) = read_only S
open_last D opens index schema files data_undefined = start_undefined
open_last D opens index schema [] (create_next magic_nr S) =
    made_first schema (first_file D opens (known_files index [])) S
open_last D opens index schema (f ∷ files) (create_next magic_nr S) =
    reopened schema (last f files).1
      (database_new_file D opens false magic_nr (known_files index (f ∷ files))) S
open_last D opens index schema [] (append_to_last S) = start_undefined
open_last D opens index schema (f ∷ files) (append_to_last S) =
    writing_to schema (reopen (last f files).1 (known_files index (f ∷ files))) S

-- A database that is opened with DB_READ_ONLY loads its files only.
abbrev pub only_reading : LoadedData → Started
only_reading (append_to_last S) = read_only S
only_reading (create_next magic_nr S) = read_only S
only_reading (switched_to_read_only S) = read_only S
only_reading data_undefined = start_undefined

abbrev pub with_new : (List ℕ → Started) → Option (List ℕ) → Started
with_new k none = start_undefined
with_new k (some schema) = k schema

-- The schema: that of the directory, or a new one where there are no data files either and the
-- flags have DB_CREATE. `k` goes on with its bytes.
unfoldable pub with_schema :
    DatabaseType → Bool → Bool → (List ℕ → Started) → Option (List ℕ) → Started
with_schema D create no_files k (some schema) = k schema
with_schema D create false k none = not_started
with_schema D false true k none = not_started
with_schema D true true k none = elim (do W ← write_schema D writer_init; writer_output W) [
  | none ↦ start_undefined
  | some schema ↦ k schema
]

abbrev pub then_load : FileResult (Unit {0}) → Started → Started
then_load (loaded u rest S) k = k
then_load (failed S) k = not_started
then_load undefined k = start_undefined

-- `/`, `.` and `..`
unfoldable pub bad_name : List ℕ → Bool
bad_name file =
    same_bytes (47 ∷ []) file || same_bytes (46 ∷ []) file || same_bytes (46 ∷ 46 ∷ []) file

module _ (address : List ℕ → ℕ) (D : DatabaseType) (create only_read opens : Bool) where
  -- From the check of the schema on
  unfoldable pub load_checked : List ℕ → List File → Store → List ℕ → Started
  unfolding check_files open_last
  load_checked db_name files S schema =
      then_load (read_schema address D schema S) (elim (check_files db_name files) [
        | none ↦ not_started
        | some index ↦
            let contents = load_files address D true 0 (map (λ (f : File). f.1) files) S in
            elim only_read [
              | true ↦ only_reading contents
              | false ↦ open_last D opens index schema files contents
            ]
      ])

  -- `file` is the last part of the database's name, and the directory that of the rest of it.
  unfoldable pub load_data : List ℕ → Directory → Store → Started
  unfolding load_checked with_schema get_db_files bad_name
  load_data file dir S =
      if is_empty file
      then read_only S
      else if bad_name file
      then not_started
      else let db_name = file ++ (46 ∷ []) in
        let files = get_db_files db_name dir.entries in
        with_schema D create (is_empty files) (load_checked db_name files S) dir.schema
