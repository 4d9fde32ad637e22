-- ===== src/Persistence/Startup/Restart.antt =====
-- A database that is started, written to, and started again.
use hybrid_databases.Base.{
  ℕ, ◌+◌, ◌^◌, ◌≤◌, ◌≡◌, refl, sym, ap, ◌∙◌, arith, Bool, true, false, none, some, List, [], ◌∷◌,
  ◌++◌, length, map, append-nil,
}
use hybrid_databases.Base.Options.{◌>>=◌}
use hybrid_databases.Storage.Items.{encode}
use hybrid_databases.Storage.Writer.{Writer, writer_init, writer_output}
use hybrid_databases.Storage.Writer.Bounds.{root_bytes}
use hybrid_databases.Persistence.Schema.{DatabaseType}
use hybrid_databases.Persistence.Writing.{write_schema}
use hybrid_databases.Persistence.Loading.{Store}
use hybrid_databases.Persistence.Log.{LogItem, buffered_sync}
use hybrid_databases.Persistence.Loads.{
  Loaded, append_to_last, load_files, after_file, read_schema, loaded, is_empty,
}
use hybrid_databases.Persistence.Loads.Transactions.{Placed}
use hybrid_databases.Persistence.Loads.DataFiles.{dump_end}
use hybrid_databases.Persistence.Loads.WholeFiles.{data_file, left_open}
use hybrid_databases.Persistence.DataFile.{Files, opened, write_commits}
use hybrid_databases.Persistence.DataFile.Pieces.{writer_init-IsIdle, output_lem}
use hybrid_databases.Persistence.DataFile.Created.{IsSmall, first_file_lem, no_files}
use hybrid_databases.Persistence.DataFile.Recovery.{
  AreWritable, AreCommits, effects, committed_file, recovery,
}
use hybrid_databases.Persistence.DataFile.SchemaFile.{
  schema_item, read_schema_lem, write_schema_lem,
}
use hybrid_databases.Persistence.Startup.{
  File, Directory, Started, writing_to, last, check_files, get_db_files, bad_name, known_files,
  reopen, open_last, with_schema, with_new, load_checked, load_data,
}
use hybrid_databases.Persistence.Startup.FileNames.{
  decimal, numbered, get_db_files-numbered, check_files-numbered,
}

abbrev pub schema_bytes : DatabaseType → List ℕ
schema_bytes D = root_bytes true (encode (schema_item D))

-- The name of the database in its directory, with the dot that the files' numbers follow
abbrev pub dotted : List ℕ → List ℕ
dotted file = file ++ (46 ∷ [])

-- A name that `load_data` takes
abbrev pub IsName : List ℕ → Type 0
IsName file = (is_empty file ≡ false) × (bad_name file ≡ false)

-- A directory with the schema, and with data files of these contents, numbered from `n` on
abbrev pub holding : DatabaseType → List ℕ → ℕ → List (List ℕ) → Directory
holding D file n contents = record {
  schema = some (schema_bytes D);
  entries = numbered (dotted file) n contents;
}

abbrev pub empty_directory : Directory
empty_directory = record { schema = none; entries = [] }

module _ (db_name : List ℕ) where
  contents-numbered :
      (n : ℕ) (cs : List (List ℕ)) → map (λ (f : File). f.1) (numbered db_name n cs) ≡ cs
  contents-numbered n [] = refl
  contents-numbered n (c ∷ cs) = ap (λ (t : List (List ℕ)). c ∷ t) (contents-numbered (n + 1) cs)

  last-numbered :
      (n : ℕ) (c : List ℕ) (cs : List (List ℕ))
      → (last (db_name ++ decimal n, c) (numbered db_name (n + 1) cs)).1 ≡ last c cs
  last-numbered n c [] = refl
  last-numbered n c (d ∷ cs) = last-numbered (n + 1) d cs

schema_accepted :
    (address : List ℕ → ℕ) (D : DatabaseType) (S : Store)
    → Placed address (schema_bytes D ++ [])
    → read_schema address D (schema_bytes D) S ≡ loaded tt [] S
schema_accepted address D S p =
    ap (λ (t : List ℕ). read_schema address D t S) (sym (append-nil (schema_bytes D)))
    ∙ read_schema_lem D address [] S p

schema_made :
    (D : DatabaseType) (k : List ℕ → Started)
    → length (encode (schema_item D)) ≤ 2 ^ 60
    → with_schema D true true k none ≡ k (schema_bytes D)
unfolding with_schema
schema_made D k fits =
    let (W, e, idle, s) = write_schema_lem D writer_init writer_init-IsIdle (omega arith) in
    let bytes : (write_schema D writer_init >>= writer_output) ≡ some (schema_bytes D) =
      rw (e, output_lem idle, s) refl in
    ap (with_new k) bytes

module _ (address : List ℕ → ℕ) (D : DatabaseType) (create opens : Bool) (file : List ℕ)
    (name : IsName file) (S : Store) where
  checked :
      (n : ℕ) (c : List ℕ) (cs : List (List ℕ))
      → Placed address (schema_bytes D ++ [])
      → load_checked address D create false opens
          (dotted file)
          (numbered (dotted file) n (c ∷ cs))
          S
          (schema_bytes D)
        ≡ open_last D opens
            (n + length cs)
            (schema_bytes D)
            (numbered (dotted file) n (c ∷ cs))
            (load_files address D true 0 (c ∷ cs) S)
  unfolding load_checked
  checked n c cs p =
      rw
        (
          schema_accepted address D S p,
          check_files-numbered (dotted file) n c cs,
          contents-numbered (dotted file) (n + 1) cs,
        )
        refl

  -- With the schema of the database and no file missing, all turns on the data files.
  pub started :
      (n : ℕ) (c : List ℕ) (cs : List (List ℕ))
      → Placed address (schema_bytes D ++ [])
      → load_data address D create false opens file (holding D file n (c ∷ cs)) S
        ≡ open_last D opens
            (n + length cs)
            (schema_bytes D)
            (numbered (dotted file) n (c ∷ cs))
            (load_files address D true 0 (c ∷ cs) S)
  unfolding load_data with_schema
  started n c cs p =
      rw (name.0, name.1)
        (ap
            (λ (files : List File).
              load_checked address D create false opens (dotted file) files S (schema_bytes D))
            (get_db_files-numbered (dotted file) n (c ∷ cs))
          ∙ checked n c cs p)

  -- A chain of files whose last one is still open goes on in that one.
  pub load_data-restarts :
      (n : ℕ) (c : List ℕ) (cs : List (List ℕ)) (S1 : Store)
      → Placed address (schema_bytes D ++ [])
      → load_files address D true 0 (c ∷ cs) S ≡ append_to_last S1
      → load_data address D create false opens file (holding D file n (c ∷ cs)) S
        ≡ writing_to
            (schema_bytes D)
            (reopen (last c cs) (known_files (n + length cs) (numbered (dotted file) n (c ∷ cs))))
            S1
  unfolding open_last
  load_data-restarts n c cs S1 p e =
      started n c cs p ∙ rw (e, last-numbered (dotted file) n c cs) refl

-- The first start: an empty directory, with DB_CREATE.
load_data-creates :
    (address : List ℕ → ℕ) (D : DatabaseType) (file : List ℕ) (S : Store)
    → IsName file
    → IsSmall D
    → length (encode (schema_item D)) ≤ 2 ^ 60
    → Placed address (schema_bytes D ++ [])
    → load_data address D true false true file empty_directory S
      ≡ writing_to
          (schema_bytes D)
          (record no_files {
            current_file_index = 1;
            file_desc = opened (data_file D 0 true (dump_end ∷ []) left_open);
          })
          S
unfolding load_data load_checked check_files open_last load_files get_db_files
load_data-creates address D file S name small fits p =
    let k = load_checked address D true false true (dotted file) [] S in
    rw (name.0, name.1)
      (schema_made D k fits ∙ rw (schema_accepted address D S p, first_file_lem D small) refl)

-- A database is created in an empty directory, and written to: commits, each of which creates,
-- changes or deletes a node, whose logs have typed values and take 2 ^ 60 bytes each at most,
-- create nodes of known types, and change a node that is there by an attribute that it has only,
-- with ids below 2 ^ 64 and attributes' numbers below 2 ^ 31. Then it is started again, from the
-- directory with the schema and the file that these left. If its name can be used, its header takes
-- 2 ^ 57 bytes and its schema 2 ^ 60 at most, the first file can be made, and `reader_begin` puts
-- elements below 2 ^ 62, then both starts and the writing succeed, with the file numbered by the
-- index that the first start has; and where the first start had the nodes `S`, as without files it
-- loads none, the second has what the commits make of `S` in their order, an empty string being
-- a null pointer, and goes on in the same file behind them.
pub load_data-recovers :
    (address : List ℕ → ℕ) (D : DatabaseType) (create opens : Bool) (file : List ℕ) (S : Store)
    (logs : List (List LogItem))
    → IsName file
    → IsSmall D
    → length (encode (schema_item D)) ≤ 2 ^ 60
    → AreWritable logs
    → AreCommits D S logs
    → Placed address (schema_bytes D ++ [])
    → Placed address (committed_file D logs)
    → (F : Files) × (first : List ℕ) × (W : Writer) × (contents : List ℕ) × (load_data address D
          true false true file empty_directory S
        ≡ writing_to (schema_bytes D) F S)
      × (F.file_desc ≡ opened first)
      × ((do output ← write_commits logs (writer_init, first); buffered_sync output)
          ≡ some (W, contents))
      × (load_data address D create false opens file
            (record {
              schema = some (schema_bytes D);
              entries = (dotted file ++ decimal F.current_file_index, contents) ∷ [];
            })
            S
          ≡ writing_to
              (schema_bytes D)
              (record F { file_desc = opened contents })
              (effects D logs S))
load_data-recovers address D create opens file S logs name small fits writable commits_ok p placed =
    let first = data_file D 0 true (dump_end ∷ []) left_open in
    let F : Files = record no_files { current_file_index = 1; file_desc = opened first } in
    let (W, contents, e, l) = recovery address D S logs writable commits_ok placed in
    let k = λ (m : ℕ) (S1 : Store). load_files address D false m [] S1 in
    let files : load_files address D true 0 (contents ∷ []) S ≡ append_to_last (effects D logs S) =
      unfold load_files in ap (λ (r : Loaded). after_file true k r) l in
    (
      F,
      first,
      W,
      contents,
      load_data-creates address D file S name small fits p,
      refl,
      e,
      load_data-restarts address D create opens file name S 1 contents [] (effects D logs S) p
          files,
    )
