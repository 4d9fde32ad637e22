-- ===== src/Persistence/Startup/LostCommits.antt =====
-- A database whose last data file was closed, as when the program ended before it made the next.
use hybrid_databases.Base.{
  ℕ, ◌+◌, ◌^◌, ◌<◌, ◌≡◌, refl, ap, ◌∙◌, arith, Bool, true, false, List, [], ◌∷◌, ◌++◌,
  length-append, ◌==◌, ◌||◌,
}
use hybrid_databases.Storage.Writer.{writer_init}
use hybrid_databases.Persistence.Schema.{DatabaseType}
use hybrid_databases.Persistence.Loading.{Store}
use hybrid_databases.Persistence.Loads.{Loaded, append_to_last, create_next, load_files, after_file}
use hybrid_databases.Persistence.Loads.Transactions.{Placed}
use hybrid_databases.Persistence.Loads.DataFiles.{Entry, load_entries, AreValid}
use hybrid_databases.Persistence.Loads.WholeFiles.{data_file, left_open, closed, load_file_lem}
use hybrid_databases.Persistence.DataFile.{opened, database_new_file, close_current}
use hybrid_databases.Persistence.DataFile.Pieces.{writer_init-IsIdle}
use hybrid_databases.Persistence.DataFile.Created.{IsSmall, opening, opening_bytes_lem}
use hybrid_databases.Persistence.Startup.{writing_to, open_last, load_data}
use hybrid_databases.Persistence.Startup.Closed.{load_file-closed}
use hybrid_databases.Persistence.Startup.Restart.{
  schema_bytes, IsName, holding, started, load_data-restarts,
}

-- A data file that is closed by the number of the next one
abbrev pub closed_file : DatabaseType → ℕ → ℕ → List Entry → List ℕ
closed_file D magic next es = data_file D magic true es (closed next)

module _ (address : List ℕ → ℕ) (D : DatabaseType) (create : Bool) (file : List ℕ) (S : Store)
    (n magic next : ℕ) (es : List Entry) (name : IsName file) (small : IsSmall D)
    (magic_small : magic < 2 ^ 64) (next_small : next < 2 ^ 64) (valid : AreValid D true true S es)
    (p : Placed address (schema_bytes D ++ [])) where
  files_read :
      Placed address (closed_file D magic next es)
      → load_files address D true 0 ((closed_file D magic next es) ∷ []) S
        ≡ create_next next (load_entries D true es S)
  unfolding load_files
  files_read placed =
      ap (λ (r : Loaded). after_file true (λ m S1. create_next m S1) r)
        (load_file_lem address D S es (closed next) true 0 magic next_small magic_small refl valid
          placed)

  -- The start makes the next file, and then writes to the closed one.
  wrong_file :
      Placed address (closed_file D magic next es)
      → load_data address D create false true file
          (holding D file n ((closed_file D magic next es) ∷ []))
          S
        ≡ writing_to
            (schema_bytes D)
            (record {
              read_only = false;
              current_file_index = n + 1;
              closed_files = [];
              file_desc = opened (closed_file D magic next es);
            })
            (load_entries D true es S)
  unfolding open_last database_new_file close_current
  wrong_file placed =
      let index : n + 0 ≡ n = omega arith in
      started address D create true file name S n (closed_file D magic next es) [] p
      ∙ rw
          (
            files_read placed,
            opening_bytes_lem D false next writer_init small writer_init-IsIdle refl,
            index,
          )
          refl

  not_read :
      (more : List ℕ)
      → Placed address ((closed_file D magic next es) ++ more)
      → Placed address (opening D false next)
      → load_files address D true 0
          (((closed_file D magic next es) ++ more) ∷ opening D false next ∷ [])
          S
        ≡ append_to_last (load_entries D true es S)
  unfolding load_files
  not_read more placed later =
      let S1 = load_entries D true es S in
      let same : (next == 0 || next == next) ≡ true = ground arith in
      let next_file = opening D false next ∷ [] in
      ap (λ (r : Loaded). after_file false (λ m S2. load_files address D false m next_file S2) r)
        (load_file-closed address D S es true 0 magic next more magic_small next_small refl valid
          placed)
      ∙ ap (λ (r : Loaded). after_file true (λ m S2. create_next m S2) r)
          (load_file_lem address D S1 [] left_open false next next tt next_small same tt later)

  lost :
      (more : List ℕ)
      → Placed address ((closed_file D magic next es) ++ more)
      → Placed address (opening D false next)
      → load_data address D create false true file
          (holding D file n (((closed_file D magic next es) ++ more) ∷ opening D false next ∷ []))
          S
        ≡ writing_to
            (schema_bytes D)
            (record {
              read_only = false;
              current_file_index = n + 1;
              closed_files = ((closed_file D magic next es) ++ more) ∷ [];
              file_desc = opened (opening D false next);
            })
            (load_entries D true es S)
  lost more placed later =
      load_data-restarts address D create true file name S n ((closed_file D magic next es) ++ more)
        (opening D false next ∷ []) (load_entries D true es S) p (not_read more placed later)

-- A database with a name that can be used and a header of 2 ^ 57 bytes at most has one data file,
-- of valid entries, that is closed by the number of a next one, and there is no next file: the
-- program ended before it made that, or could not. Its start makes the next file, where it can be
-- made, but goes on in the closed one. Whatever is written there, behind the footer, is lost at the
-- next start: that gives the nodes of the entries before the footer, whatever `more` is, and goes on
-- in the file that the first start made.
pub load_data-loses :
    (address : List ℕ → ℕ) (D : DatabaseType) (create : Bool) (file : List ℕ) (S : Store)
    (n magic next : ℕ) (es : List Entry) (more : List ℕ)
    → IsName file
    → IsSmall D
    → magic < 2 ^ 64
    → next < 2 ^ 64
    → AreValid D true true S es
    → Placed address (schema_bytes D ++ [])
    → Placed address (closed_file D magic next es ++ more)
    → Placed address (opening D false next)
    → (load_data address D create false true file
          (holding D file n (closed_file D magic next es ∷ []))
          S
        ≡ writing_to
            (schema_bytes D)
            (record {
              read_only = false;
              current_file_index = n + 1;
              closed_files = [];
              file_desc = opened (closed_file D magic next es);
            })
            (load_entries D true es S))
      × (load_data address D create false true file
            (holding D file n ((closed_file D magic next es ++ more) ∷ opening D false next ∷ []))
            S
          ≡ writing_to
              (schema_bytes D)
              (record {
                read_only = false;
                current_file_index = n + 1;
                closed_files = (closed_file D magic next es ++ more) ∷ [];
                file_desc = opened (opening D false next);
              })
              (load_entries D true es S))
load_data-loses address D create file S n magic next es more name small magic_small next_small valid
      p placed later =
    let c = closed_file D magic next es in
    let alone : Placed address c = λ f h. placed f (omega (arith, length-append c more)) in
    (
      wrong_file address D create file S n magic next es name small magic_small next_small valid p
          alone,
      lost address D create file S n magic next es name small magic_small next_small valid p more
          placed later,
    )
