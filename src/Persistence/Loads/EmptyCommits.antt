-- ===== src/Persistence/Loads/EmptyCommits.antt =====
-- A transaction that holds no operation, and what `load_file` makes of it.
use hybrid_databases.Base.{
  ℕ, suc, ◌+◌, ◌-◌, ◌^◌, ◌<◌, ◌≡◌, refl, ◌∙◌, ap, arith, Bool, true, List, [], ◌∷◌, ◌++◌, length,
  ◌==◌, ◌||◌,
}
use hybrid_databases.Storage.Format.{array_begin, array_end, ReadStatus, read_success}
use hybrid_databases.Storage.Reader.{Reader, reader_next}
use hybrid_databases.Storage.Reader.Files.{reader_begin}
use hybrid_databases.Storage.Writer.{trailer}
use hybrid_databases.Storage.Writer.Bounds.{trailer_bounds}
use hybrid_databases.Storage.Reader.Lengths.{at}
use hybrid_databases.Storage.Frames.{reader_begin_lem}
use hybrid_databases.Storage.Items.{arr, nil, encode}
use hybrid_databases.Persistence.Schema.{DatabaseType}
use hybrid_databases.Persistence.Loading.{Store, r_array, ◌>>=◌, r_next}
use hybrid_databases.Persistence.Loading.Reading.{Loads-mark}
use hybrid_databases.Persistence.Loads.{
  failed, load_transaction, Loaded, load_corrupted_file, finishing, load_loop, load_root, load_file,
}
use hybrid_databases.Persistence.Loads.Transactions.{Placed, Placed-here}
use hybrid_databases.Persistence.Loads.DataFiles.{
  Entry, commit, entry_bytes, all_bytes, load_entries, AreValid, dump_behind,
}
use hybrid_databases.Persistence.Loads.WholeFiles.{
  header_bytes, start_bytes, load_file-entries, Placed-tail,
}

module _ (address : List ℕ → ℕ) (D : DatabaseType) (S : Store) where
  empty_reads :
      (first on : Bool) (base : ℕ) (file : List ℕ)
      → base + 20 < 2 ^ 63
      → finishing true
          (r_array (load_transaction D first on))
          (at base [] (encode (arr nil) ++ trailer true (encode (arr nil))) 0)
          file
          S
        ≡ failed S
  unfolding finishing r_array load_transaction encode ◌>>=◌ r_next reader_next
  empty_reads first on base file h =
      let mark =
        (Loads-mark [] S 0).run base [] (array_end ∷ trailer true (array_begin ∷ array_end ∷ []))
          (omega (arith, trailer_bounds true (array_begin ∷ array_end ∷ []))) in
      rw (finishing, mark) refl

  loop_root :
      (first on : Bool) (rest : ℕ) (file : List ℕ)
      → load_loop address (suc rest) D first on file S
        ≡ load_root address D first on
            (λ dump f S1. load_loop address rest D first dump f S1)
            (reader_begin (address file) file)
            S
  unfolding load_loop
  loop_root first on rest file = refl

  empty_root :
      (first on : Bool) (base : ℕ) (file : List ℕ) (k : Bool → List ℕ → Store → Loaded)
      → base + 20 < 2 ^ 63
      → load_root address D first on k
          (read_success (at base [] (encode (arr nil) ++ trailer true (encode (arr nil))) 0), file)
          S
        ≡ load_corrupted_file S
  unfolding load_root reader_next encode
  empty_root first on base file k h = rw (empty_reads first on base file h) refl

-- Behind entries that are in order, a transaction with no operation stops the load.
pub empty_commit-corrupts :
    (address : List ℕ → ℕ) (D : DatabaseType) (S : Store) (es : List Entry) (first : Bool)
    (magic_nr magic : ℕ) (more : List ℕ)
    → magic < 2 ^ 64
    → (magic_nr == 0 || magic_nr == magic) ≡ true
    → AreValid D first first S es
    → Placed address (
        header_bytes D magic
          (start_bytes first (all_bytes es ++ (entry_bytes (commit []) ++ more))))
    → load_file address D magic_nr first
        (header_bytes D magic
          (start_bytes first (all_bytes es ++ (entry_bytes (commit []) ++ more))))
        S
      ≡ load_corrupted_file (load_entries D first es S)
empty_commit-corrupts address D S es first magic_nr magic more small same v p =
    let bs = encode (arr nil) in
    let tail = entry_bytes (commit []) ++ more in
    let T = load_entries D first es S in
    let on = dump_behind first es in
    let rest = length (all_bytes es ++ tail) - length es in
    let placed = Placed-tail address D magic first es tail p in
    let base = address tail in
    let here = Placed-here address true bs more placed in
    let begin = reader_begin_lem base true bs more (omega arith) in
    let k = λ (dump : Bool) (f : List ℕ) (S1 : Store). load_loop address rest D first dump f S1 in
    load_file-entries address D S es tail first magic_nr magic small same v p
    ∙ loop_root address D T first on rest tail
    ∙ ap (λ (b : ReadStatus Reader × List ℕ). load_root address D first on k b T) begin
    ∙ empty_root address D T first on base more k (omega (arith, placed tail (omega arith)))
