-- ===== src/Tests/PersistenceRuns.antt =====
-- The theorems on files and on the service thread, at a small database.
use hybrid_databases.Base.{
  ℕ, ◌+◌, ◌^◌, ◌<◌, ◌≤◌, ◌≡◌, refl, arith, subst, true, false, none, some, List, [], ◌∷◌, ◌++◌,
  length, ltb,
}
use hybrid_databases.Base.Options.{◌>>=◌}
use hybrid_databases.Storage.Codes.{fixed_bytes, digits, digits_loop, length_bytes}
use hybrid_databases.Storage.Items.{encode}
use hybrid_databases.Storage.Writer.{Writer, writer_init}
use hybrid_databases.Storage.Writer.Bounds.{root_bytes}
use hybrid_databases.Persistence.Attributes.{uint8, type_id, number, has_number}
use hybrid_databases.Persistence.Attributes.Reading.{init_attributes, attribute_init, init_kind}
use hybrid_databases.Persistence.Attributes.Storing.{stored}
use hybrid_databases.Persistence.Schema.{
  Attribute, NodeType, DatabaseType, chars, file_mark, schema_mark, dump_begin_mark, dump_end_mark,
  footer_mark,
}
use hybrid_databases.Persistence.Loading.{Node, Store}
use hybrid_databases.Persistence.Writing.{write_schema}
use hybrid_databases.Persistence.Reading.{put_node}
use hybrid_databases.Persistence.Operations.{
  create, apply_operation, add_node, initial, operation_parts, HasAttribute,
}
use hybrid_databases.Persistence.Log.{
  LogItem, raw, node_alloc, node_modify, node_delete, memory_delete, operations,
  process_transaction_log, log_garbage, buffered_write, buffered_sync,
}
use hybrid_databases.Persistence.Log.Emitted.{Sealed, log_item, process_transaction_log_lem}
use hybrid_databases.Persistence.Log.Buffering.{IsBuffer, Accepted, buffered_write_lem}
use hybrid_databases.Persistence.Loads.{
  load_file, load_unfinished_file, load_corrupted_file, load_files, append_to_last, read_schema,
  loaded,
}
use hybrid_databases.Persistence.Loads.DataFiles.{Entry, commit, dump_end}
use hybrid_databases.Persistence.Loads.WholeFiles.{data_file, left_open, closed, footer_bytes}
use hybrid_databases.Persistence.Loads.Histories.{
  files_from, nodes_from, AreChained, load_files_lem,
}
use hybrid_databases.Persistence.DataFile.{write_commits, Files, opened, database_new_file}
use hybrid_databases.Persistence.DataFile.Pieces.{writer_init-IsIdle, Written}
use hybrid_databases.Persistence.DataFile.Created.{opening, IsSmall, database_new_file_lem}
use hybrid_databases.Persistence.DataFile.Recovery.{
  AreWritable, AreCommits, effects, committed_file, recovery,
}
use hybrid_databases.Persistence.DataFile.MemoryCommits.{memory_commit-corrupts}
use hybrid_databases.Persistence.DataFile.SchemaFile.{schema_item, read_schema-write_schema}

abbrev pub count_attribute : Attribute
count_attribute = record { name = chars "count"; type = uint8 }

abbrev pub counter_type : NodeType
counter_type = record { name = chars "Counter"; attributes = count_attribute ∷ [] }

abbrev pub counters : DatabaseType
counters = record { name = chars "Counters"; version = chars "1"; node_types = counter_type ∷ [] }

abbrev pub nothing_loaded : Store
nothing_loaded = record { nodes = λ id. none; node_id_counter = 1 }

abbrev pub page : List ℕ → ℕ
page file = 4096

-- A counter is made and set to 7; memory is written; the counter is deleted.
abbrev pub make_log : List LogItem
make_log = node_alloc 64 0 2 ∷ raw 16 ∷ node_modify 64 2 0 uint8 (number 7) ∷ []

abbrev pub delete_log : List LogItem
delete_log = node_delete 64 2 ∷ memory_delete 32 ∷ []

abbrev pub two_logs : List (List LogItem)
two_logs = make_log ∷ delete_log ∷ []

abbrev made : Node
made = record { type = 0; attributes = number 0 ∷ [] }

pub two_logs-AreWritable : AreWritable two_logs
unfolding operations encode operation_parts stored digits digits_loop length_bytes
two_logs-AreWritable =
    (((has_number 1 7 (omega arith) (omega arith), tt), omega arith), ((tt, omega arith), tt))

made_typed : (node : Node) → made ≡ node → HasAttribute counters node 0 (number 7)
made_typed node e =
    subst (λ n. HasAttribute counters n 0 (number 7)) e
      (counter_type, refl, (count_attribute, refl, has_number 1 7 (omega arith) (omega arith)))

pub two_logs-AreCommits : AreCommits counters nothing_loaded two_logs
unfolding operations apply_operation add_node put_node initial init_attributes attribute_init
    init_kind
two_logs-AreCommits = (
  λ e. cc,
  (
    (omega arith, omega arith, (counter_type, refl)),
    ((omega arith, omega arith, λ node e. made_typed node (cc)), tt),
  ),
  (λ e. cc, (omega arith, tt), tt),
)

pub small_file :
    (file f : List ℕ)
    → ltb (length file) 10000 ≡ true
    → length f ≤ length file
    → page f + length f < 2 ^ 62
small_file file f h l = ground arith

pub committed_size : ltb (length (committed_file counters two_logs)) 10000 ≡ true
unfolding operations encode operation_parts stored digits digits_loop length_bytes fixed_bytes
    file_mark dump_begin_mark dump_end_mark
committed_size = refl

recovery_example :
    (W : Writer) × (file : List ℕ) × ((do
      output ←
          write_commits two_logs (writer_init, data_file counters 0 true (dump_end ∷ []) left_open)
      buffered_sync output)
      ≡ some (W, file))
    × (load_file page counters 0 true file nothing_loaded
        ≡ load_unfinished_file (effects counters two_logs nothing_loaded))
recovery_example =
    recovery page counters nothing_loaded two_logs two_logs-AreWritable two_logs-AreCommits
      (λ f h. small_file (committed_file counters two_logs) f committed_size h)

abbrev memory_log : List LogItem
memory_log = raw 16 ∷ memory_delete 32 ∷ []

abbrev memory_file : List ℕ
memory_file = committed_file counters (memory_log ∷ []) ++ []

memory-AreWritable : AreWritable (memory_log ∷ [])
unfolding encode operations operation_parts length_bytes
memory-AreWritable = ((tt, omega arith), tt)

memory_file_size : ltb (length memory_file) 10000 ≡ true
unfolding operations encode operation_parts stored digits digits_loop length_bytes fixed_bytes
    file_mark dump_begin_mark dump_end_mark
memory_file_size = refl

no_operation : operations memory_log ≡ []
unfolding operations
no_operation = refl

memory_commit-corrupts_example :
    (W : Writer) × (file : List ℕ) × ((do
      output ←
          write_commits
            (memory_log ∷ [])
            (writer_init, data_file counters 0 true (dump_end ∷ []) left_open)
      buffered_sync output)
      ≡ some (W, file))
    × (load_file page counters 0 true (file ++ []) nothing_loaded
        ≡ load_corrupted_file (effects counters [] nothing_loaded))
memory_commit-corrupts_example =
    memory_commit-corrupts page counters nothing_loaded [] memory_log [] memory-AreWritable tt
      no_operation (λ f h. small_file memory_file f memory_file_size h)

-- Two files: the first with nothing but its dump, the second with a creation.
abbrev first_closed : List (List Entry × ℕ)
first_closed = (dump_end ∷ [], 5) ∷ []

abbrev one_creation : List Entry
one_creation = commit (create 0 2 ∷ []) ∷ []

closed_size : ltb (length (data_file counters 0 true (dump_end ∷ []) (closed 5))) 10000 ≡ true
unfolding encode digits digits_loop length_bytes fixed_bytes file_mark dump_begin_mark dump_end_mark
    footer_mark
closed_size = refl

last_size : ltb (length (data_file counters 5 false one_creation left_open)) 10000 ≡ true
unfolding encode operation_parts digits digits_loop length_bytes fixed_bytes file_mark
last_size = refl

chained : AreChained counters page true 0 first_closed one_creation nothing_loaded
chained = (
  omega arith,
  omega arith,
  (refl, tt),
  λ f h. small_file (data_file counters 0 true (dump_end ∷ []) (closed 5)) f closed_size h,
  (
    omega arith,
    ((λ e. cc, ((omega arith, omega arith, (counter_type, refl)), tt)), tt),
    λ f h. small_file (data_file counters 5 false one_creation left_open) f last_size h,
  ),
)

load_files_lem_example :
    load_files page counters true 0
      (files_from counters true 0 first_closed one_creation)
      nothing_loaded
    ≡ append_to_last (nodes_from counters true first_closed one_creation nothing_loaded)
load_files_lem_example =
    load_files_lem page counters first_closed one_creation nothing_loaded chained

pub schema_size :
    (ltb (length (root_bytes true (encode (schema_item counters)) ++ [])) 10000 ≡ true)
    × (length (encode (schema_item counters)) ≤ 1000)
unfolding encode digits digits_loop length_bytes fixed_bytes schema_mark type_id
schema_size = (refl, omega arith)

read_schema-write_schema_example :
    Written writer_init
      (root_bytes true (encode (schema_item counters)))
      (write_schema counters writer_init)
    × (read_schema page counters
          (root_bytes true (encode (schema_item counters)) ++ [])
          nothing_loaded
        ≡ loaded tt [] nothing_loaded)
read_schema-write_schema_example =
    read_schema-write_schema counters writer_init page [] nothing_loaded writer_init-IsIdle
      (omega (arith, schema_size.1))
      (λ f h. small_file (root_bytes true (encode (schema_item counters)) ++ []) f schema_size.0 h)

pub header_size : IsSmall counters
unfolding encode length_bytes file_mark
header_size = omega arith

abbrev old_files : Files
old_files = record {
  read_only = false;
  current_file_index = 1;
  closed_files = [];
  file_desc = opened (1 ∷ 2 ∷ []);
}

database_new_file_lem_example :
    database_new_file counters true false 9 old_files
    ≡ some (
      true,
      record old_files {
        current_file_index = 2;
        closed_files = ((1 ∷ 2 ∷ []) ++ footer_bytes 9) ∷ [];
        file_desc = opened (opening counters false 9);
      },
    )
database_new_file_lem_example =
    database_new_file_lem counters true false 9 old_files (1 ∷ 2 ∷ []) header_size refl refl

delete_size : 10 + 0 + 0 + length (encode (log_item (operations delete_log))) + 16 ≤ 2 ^ 61
unfolding operations encode operation_parts digits digits_loop length_bytes
delete_size = omega arith

process_transaction_log_lem_example :
    (W' : Writer) × (process_transaction_log delete_log writer_init []
      ≡ some (W', [] ++ log_garbage delete_log, []))
    × Sealed writer_init true (log_item (operations delete_log)) W'
process_transaction_log_lem_example =
    process_transaction_log_lem delete_log writer_init [] tt writer_init-IsIdle delete_size

empty-IsBuffer : IsBuffer writer_init
empty-IsBuffer = record { idle = writer_init-IsIdle; limit = omega arith }

buffered_write_lem_example :
    Accepted writer_init (8 ∷ []) (1 ∷ 2 ∷ []) (buffered_write (1 ∷ 2 ∷ []) (writer_init, 8 ∷ []))
buffered_write_lem_example = buffered_write_lem (8 ∷ []) empty-IsBuffer (1 ∷ 2 ∷ [])
