-- ===== src/Persistence/Log.antt =====
-- `process_transaction_log`, `free_garbage`, `buffered_write` and `buffered_sync` of database.include/threads.c, with
-- SIMPLE_SERVICE_THREAD and DB_DEFER_DEALLOC.
pub mod Emitted
pub mod Buffering
use hybrid_databases.Base.{
  ℕ, ◌+◌, ◌-◌, ◌/◌, Bool, true, false, Option, none, some, List, [], ◌∷◌, ◌++◌, length, leb, ltb,
  ◌==◌, if◌then◌else◌,
}
use hybrid_databases.Base.Options.{◌>>=◌}
use hybrid_databases.Storage.Writer.{
  Writer, writer_finish, writer_output, writer_discart, writer_direct_write,
}
use hybrid_databases.Persistence.Emitting.{w_array}
use hybrid_databases.Persistence.Attributes.{AttributeType, Value}
use hybrid_databases.Persistence.Operations.{Operation, create, modify, delete}
use hybrid_databases.Persistence.Writing.{write_node_alloc, write_node_delete, write_node_modify}

-- `struct LogItem`, with the id and the type of the node that its `ptr` leads to: `node` is its
-- address, and `attr_type` and `data_new` are those of the item. `index` is taken to fit its 8 bits.
pub data LogItem : Type 0 where
  raw : (ptr : ℕ) → LogItem
  node_modify : (node id index : ℕ) → AttributeType → Value → LogItem
  node_alloc : (node type id : ℕ) → LogItem
  node_delete : (node id : ℕ) → LogItem
  memory_alloc : (ptr : ℕ) → LogItem
  memory_delete : (ptr : ℕ) → LogItem

-- An item of the garbage stack: a node, or memory, whose pointer the source marks by its lowest
-- bit.
pub data Garbage : Type 0 where
  node : ℕ → Garbage
  memory : ℕ → Garbage

-- What the loop of `process_transaction_log` writes
unfoldable pub write_log : List LogItem → Writer → Option Writer
write_log [] W = some W
write_log (node_modify ptr id index type value ∷ log) W =
    write_node_modify id index type value W >>= write_log log
write_log (node_alloc ptr type id ∷ log) W = write_node_alloc type id W >>= write_log log
write_log (node_delete ptr id ∷ log) W = write_node_delete id W >>= write_log log
write_log (raw ptr ∷ log) W = write_log log W
write_log (memory_alloc ptr ∷ log) W = write_log log W
write_log (memory_delete ptr ∷ log) W = write_log log W

-- What it pushes to the garbage stack, the first first
unfoldable pub log_garbage : List LogItem → List Garbage
log_garbage [] = []
log_garbage (node_modify ptr id index type value ∷ log) = log_garbage log
log_garbage (node_alloc ptr type id ∷ log) = log_garbage log
log_garbage (node_delete ptr id ∷ log) = node ptr ∷ log_garbage log
log_garbage (raw ptr ∷ log) = log_garbage log
log_garbage (memory_alloc ptr ∷ log) = log_garbage log
log_garbage (memory_delete ptr ∷ log) = memory ptr ∷ log_garbage log

-- The log is left empty.
unfoldable pub process_transaction_log :
    List LogItem → Writer → List Garbage → Option (Writer × List Garbage × List LogItem)
unfolding write_log log_garbage
process_transaction_log log W garbage_stack = do
  W1 ← w_array (write_log log) W
  W2 ← writer_finish W1 true
  some (W2, garbage_stack ++ log_garbage log, [])

-- The operations that a log holds
unfoldable pub operations : List LogItem → List Operation
operations [] = []
operations (node_modify ptr id index type value ∷ log) = modify id index value ∷ operations log
operations (node_alloc ptr type id ∷ log) = create type id ∷ operations log
operations (node_delete ptr id ∷ log) = delete id ∷ operations log
operations (raw ptr ∷ log) = operations log
operations (memory_alloc ptr ∷ log) = operations log
operations (memory_delete ptr ∷ log) = operations log

-- `DB_WRITE_BUFFER_SIZE` is 4096.
abbrev pub write_buffer_size : ℕ
write_buffer_size = 4096

-- The writer and the file behind its descriptor. A write that falls short ends the program.
unfoldable pub flush : Writer × List ℕ → Option (Writer × List ℕ)
flush (W, file) = do bytes ← writer_output W; some (writer_discart W, file ++ bytes)

unfoldable pub direct_write : List ℕ → Writer × List ℕ → Option (Writer × List ℕ)
direct_write [] (W, file) = some (W, file)
direct_write (b ∷ buffer) (W, file) = do W' ← writer_direct_write W (b ∷ buffer); some (W', file)

unfoldable pub buffered_write : List ℕ → Writer × List ℕ → Option (Writer × List ℕ)
unfolding flush direct_write
buffered_write buffer (W, file) = do
  bytes ← writer_output W
  if leb (length bytes + length buffer) write_buffer_size
      then direct_write buffer (W, file)
      else if ltb (write_buffer_size / 2) (length buffer)
      then some (writer_discart W, (file ++ bytes) ++ buffer)
      else direct_write buffer (writer_discart W, file ++ bytes)

-- `fsync` is left to the system.
unfoldable pub buffered_sync : Writer × List ℕ → Option (Writer × List ℕ)
unfolding flush
buffered_sync (W, file) = do
  bytes ← writer_output W
  (if length bytes == 0 then some (W, file) else flush (W, file))
