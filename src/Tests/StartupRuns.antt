-- ===== src/Tests/StartupRuns.antt =====
-- Starts of a small database.
use hybrid_databases.Base.{ℕ, ◌≡◌, refl, arith, true, false, some, List, [], ◌∷◌, ◌++◌, length, ltb}
use hybrid_databases.Base.Options.{◌>>=◌}
use hybrid_databases.Storage.Codes.{fixed_bytes, digits, digits_loop, length_bytes}
use hybrid_databases.Storage.Items.{encode}
use hybrid_databases.Storage.Writer.{Writer, writer_init}
use hybrid_databases.Persistence.Schema.{
  chars, file_mark, dump_begin_mark, dump_end_mark, footer_mark,
}
use hybrid_databases.Persistence.Loading.{same_bytes}
use hybrid_databases.Persistence.Log.{buffered_sync}
use hybrid_databases.Persistence.Loads.Transactions.{Placed}
use hybrid_databases.Persistence.Loads.DataFiles.{dump_end, load_entries}
use hybrid_databases.Persistence.DataFile.{write_commits, Files, opened}
use hybrid_databases.Persistence.DataFile.Created.{opening}
use hybrid_databases.Persistence.DataFile.Recovery.{committed_file, effects}
use hybrid_databases.Persistence.Startup.{
  File, writing_to, load_data, bad_name, get_db_files, db_files_select, all_digits,
}
use hybrid_databases.Persistence.Startup.FileNames.{decimal}
use hybrid_databases.Persistence.Startup.Restart.{
  schema_bytes, dotted, IsName, holding, empty_directory, load_data-recovers,
}
use hybrid_databases.Persistence.Startup.LostCommits.{closed_file, load_data-loses}
use hybrid_databases.Tests.PersistenceRuns.{
  counters, nothing_loaded, page, two_logs, two_logs-AreWritable, two_logs-AreCommits,
  committed_size, schema_size, header_size, small_file,
}

abbrev shop : List ℕ
shop = chars "shop"

shop-IsName : IsName shop
unfolding bad_name same_bytes
shop-IsName = (refl, refl)

schema-Placed : Placed page (schema_bytes counters ++ [])
schema-Placed f h = small_file (schema_bytes counters ++ []) f schema_size.0 h

load_data-recovers_example :
    (F : Files) × (first : List ℕ) × (W : Writer) × (contents : List ℕ) × (load_data page counters
        true false true shop empty_directory nothing_loaded
      ≡ writing_to (schema_bytes counters) F nothing_loaded)
    × (F.file_desc ≡ opened first)
    × ((do output ← write_commits two_logs (writer_init, first); buffered_sync output)
        ≡ some (W, contents))
    × (load_data page counters false false true shop
          (record {
            schema = some (schema_bytes counters);
            entries = (dotted shop ++ decimal F.current_file_index, contents) ∷ [];
          })
          nothing_loaded
        ≡ writing_to
            (schema_bytes counters)
            (record F { file_desc = opened contents })
            (effects counters two_logs nothing_loaded))
load_data-recovers_example =
    load_data-recovers page counters false true shop nothing_loaded two_logs shop-IsName header_size
      (omega (arith, schema_size.1)) two_logs-AreWritable two_logs-AreCommits schema-Placed
      (λ f h. small_file (committed_file counters two_logs) f committed_size h)

abbrev footed : List ℕ
footed = closed_file counters 0 9 (dump_end ∷ [])

footed_size : ltb (length (footed ++ (1 ∷ 2 ∷ []))) 10000 ≡ true
unfolding encode digits digits_loop length_bytes fixed_bytes file_mark dump_begin_mark dump_end_mark
    footer_mark
footed_size = refl

opening_size : ltb (length (opening counters false 9)) 10000 ≡ true
unfolding encode digits digits_loop length_bytes fixed_bytes file_mark
opening_size = refl

load_data-loses_example :
    (load_data page counters false false true shop
        (holding counters shop 3 (footed ∷ []))
        nothing_loaded
      ≡ writing_to
          (schema_bytes counters)
          (record {
            read_only = false;
            current_file_index = 4;
            closed_files = [];
            file_desc = opened footed;
          })
          (load_entries counters true (dump_end ∷ []) nothing_loaded))
    × (load_data page counters false false true shop
          (holding counters shop 3 ((footed ++ (1 ∷ 2 ∷ [])) ∷ opening counters false 9 ∷ []))
          nothing_loaded
        ≡ writing_to
            (schema_bytes counters)
            (record {
              read_only = false;
              current_file_index = 4;
              closed_files = (footed ++ (1 ∷ 2 ∷ [])) ∷ [];
              file_desc = opened (opening counters false 9);
            })
            (load_entries counters true (dump_end ∷ []) nothing_loaded))
load_data-loses_example =
    load_data-loses page counters false shop nothing_loaded 3 0 9 (dump_end ∷ []) (1 ∷ 2 ∷ [])
      shop-IsName header_size (omega arith) (omega arith) (refl, tt) schema-Placed
      (λ f h. small_file (footed ++ (1 ∷ 2 ∷ [])) f footed_size h)
      (λ f h. small_file (opening counters false 9) f opening_size h)

-- As the directory may be read: "shop.10", "shop.x", "shop.9"
abbrev shop_entries : List File
shop_entries = (chars "shop.10", []) ∷ (chars "shop.x", []) ∷ (chars "shop.9", 1 ∷ []) ∷ []

shop_files :
    get_db_files (dotted shop) shop_entries ≡ (chars "shop.9", 1 ∷ []) ∷ (chars "shop.10", []) ∷ []
unfolding get_db_files db_files_select all_digits
shop_files = refl
