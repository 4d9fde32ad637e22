-- ===== src/Persistence/Loads/Histories.antt =====
-- A chain of data files, each closed by the number that the next one begins with.
use hybrid_databases.Base.{
  ℕ, ◌^◌, ◌<◌, ◌≡◌, refl, ap, ◌∙◌, arith, Bool, true, false, List, [], ◌∷◌, ◌==◌, ◌||◌,
}
use hybrid_databases.Persistence.Schema.{DatabaseType}
use hybrid_databases.Persistence.Loading.{Store}
use hybrid_databases.Persistence.Loads.{append_to_last, Loaded, after_file, is_empty, load_files}
use hybrid_databases.Persistence.Loads.Transactions.{Placed}
use hybrid_databases.Persistence.Loads.DataFiles.{Entry, load_entries, AreValid}
use hybrid_databases.Persistence.Loads.WholeFiles.{left_open, closed, data_file, load_file_lem}

module _ (D : DatabaseType) where
  -- The files, where each of the closed ones is given with the number that it ends with.
  abbrev pub files_from : Bool → ℕ → List (List Entry × ℕ) → List Entry → List (List ℕ)
  files_from first magic [] last = data_file D magic first last left_open ∷ []
  files_from first magic ((es, next) ∷ files) last =
      data_file D magic first es (closed next) ∷ files_from false next files last

  abbrev pub nodes_from : Bool → List (List Entry × ℕ) → List Entry → Store → Store
  nodes_from first [] last S = load_entries D first last S
  nodes_from first ((es, next) ∷ files) last S =
      nodes_from false files last (load_entries D first es S)

  -- Entries are valid where they stand, numbers have 64 bits, and every file lies where it can be read.
  abbrev pub AreChained :
      (List ℕ → ℕ) → Bool → ℕ → List (List Entry × ℕ) → List Entry → Store → Type 0
  AreChained address first magic [] last S =
      (magic < 2 ^ 64)
      × AreValid D first first S last
      × Placed address (data_file D magic first last left_open)
  AreChained address first magic ((es, next) ∷ files) last S =
      (magic < 2 ^ 64)
      × (next < 2 ^ 64)
      × AreValid D first first S es
      × Placed address (data_file D magic first es (closed next))
      × AreChained address false next files last (load_entries D first es S)

  same_magic : (magic_nr : ℕ) → (magic_nr == 0 || magic_nr == magic_nr) ≡ true
  same_magic magic_nr = ground arith

  chain_loads :
      (address : List ℕ → ℕ) (first : Bool) (magic_nr magic : ℕ) (files : List (List Entry × ℕ))
      (last : List Entry) (S : Store)
      → (magic_nr == 0 || magic_nr == magic) ≡ true
      → AreChained address first magic files last S
      → load_files address D first magic_nr (files_from first magic files last) S
        ≡ append_to_last (nodes_from first files last S)
  unfolding load_files
  chain_loads address first magic_nr magic [] last S same (small, valid, placed) =
      let k = λ (m : ℕ) (S1 : Store). load_files address D false m [] S1 in
      ap (λ (r : Loaded). after_file true k r)
        (load_file_lem address D S last left_open first magic_nr magic tt small same valid placed)
  chain_loads address first magic_nr magic ((es, next) ∷ files) last S same
        (small, small_next, valid, placed, rest) =
      let others = files_from false next files last in
      let k = λ (m : ℕ) (S1 : Store). load_files address D false m others S1 in
      ap (λ (r : Loaded). after_file (is_empty others) k r)
        (load_file_lem address D S es (closed next) first magic_nr magic small_next small same valid
          placed)
      ∙ chain_loads address false next next files last (load_entries D first es S) (same_magic next)
          rest

-- A chain of data files that a database wrote -- the first with the number 0 and a dump at its beginning, each one closed by a
-- footer with the number of the next, the last one still open, and all of their entries valid
-- where they stand -- is loaded as a whole: the last file is appended to, and the nodes are those that the
-- entries of all files make of `S` in order. Dumps in the files behind the first are passed over.
pub load_files_lem :
    (address : List ℕ → ℕ) (D : DatabaseType) (files : List (List Entry × ℕ)) (last : List Entry)
    (S : Store)
    → AreChained D address true 0 files last S
    → load_files address D true 0 (files_from D true 0 files last) S
      ≡ append_to_last (nodes_from D true files last S)
load_files_lem address D files last S h = chain_loads D address true 0 0 files last S refl h
