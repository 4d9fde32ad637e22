-- ===== src/Persistence/Startup/Closed.antt =====
-- A last file that was closed: what is written to it later is not loaded again.
use hybrid_databases.Base.{
  ℕ, ◌-◌, ◌^◌, ◌<◌, ◌≡◌, refl, ap, ◌∙◌, Bool, true, false, List, ◌++◌, length, subst, append_assoc,
  ◌==◌, ◌||◌,
}
use hybrid_databases.Storage.Items.{encode}
use hybrid_databases.Storage.Writer.Bounds.{root_bytes}
use hybrid_databases.Persistence.Emitting.{num}
use hybrid_databases.Persistence.Schema.{DatabaseType}
use hybrid_databases.Persistence.Loading.{Store}
use hybrid_databases.Persistence.Loads.{load_success, load_file}
use hybrid_databases.Persistence.Loads.Transactions.{Placed}
use hybrid_databases.Persistence.Loads.DataFiles.{
  Entry, entry_bytes, dump_begin, all_bytes, load_entries, AreValid, dump_behind,
}
use hybrid_databases.Persistence.Loads.WholeFiles.{
  header_item, header_bytes, start_bytes, data_file, closed, closed_bytes, closed_reads,
  load_file-entries, Placed-tail,
}

start_bytes-append :
    (first : Bool) (file more : List ℕ)
    → start_bytes first file ++ more ≡ start_bytes first (file ++ more)
start_bytes-append true file more = append_assoc (entry_bytes dump_begin) file more
start_bytes-append false file more = refl

-- A closed file with more bytes behind its footer
pub closed-append :
    (D : DatabaseType) (magic : ℕ) (first : Bool) (es : List Entry) (next : ℕ) (more : List ℕ)
    → data_file D magic first es (closed next) ++ more
      ≡ header_bytes D magic (start_bytes first (all_bytes es ++ closed_bytes next more))
closed-append D magic first es next more =
    let h = root_bytes true (encode (header_item D)) in
    let n = root_bytes false (encode (num magic)) in simp (append_assoc, start_bytes-append)

-- `load_file` stops at the footer.
pub load_file-closed :
    (address : List ℕ → ℕ) (D : DatabaseType) (S : Store) (es : List Entry) (first : Bool)
    (magic_nr magic next : ℕ) (more : List ℕ)
    → magic < 2 ^ 64
    → next < 2 ^ 64
    → (magic_nr == 0 || magic_nr == magic) ≡ true
    → AreValid D first first S es
    → Placed address (data_file D magic first es (closed next) ++ more)
    → load_file address D magic_nr first (data_file D magic first es (closed next) ++ more) S
      ≡ load_success next (load_entries D first es S)
load_file-closed address D S es first magic_nr magic next more small small_next same v p =
    let e = closed-append D magic first es next more in
    let q = subst (Placed address) e p in
    ap (λ (file : List ℕ). load_file address D magic_nr first file S) e
    ∙ load_file-entries address D S es (closed_bytes next more) first magic_nr magic small same v q
    ∙ closed_reads address D (load_entries D first es S) first (dump_behind first es) next
        (length (all_bytes es ++ closed_bytes next more) - length es) more small_next
        (Placed-tail address D magic first es (closed_bytes next more) q)
