-- ===== src/Transactions/Memory.antt =====
-- Transactional memory, byte by byte, and the transaction log (database.types/handle.h).
use hybrid_databases.Base.{ℕ, zero, suc, ◌+◌, List, [], ◌∷◌, length, ◌==◌, if◌then◌else◌}

-- The bytes at all addresses.
abbrev pub Bytes : Type 0
Bytes = ℕ → ℕ

-- `memcpy` to the address, of the given bytes, and from it, of so many
unfoldable pub write_bytes : ℕ → List ℕ → Bytes → Bytes
write_bytes p [] m = m
write_bytes p (b ∷ bs) m = write_bytes (p + 1) bs (λ a. if a == p then b else m a)

unfoldable pub read_bytes : ℕ → ℕ → Bytes → List ℕ
read_bytes p zero m = []
read_bytes p (suc n) m = m p ∷ read_bytes (p + 1) n m

-- `struct LogItem`, with the types of its `type`. A change holds the address, the offset and the
-- bytes before it and, for a node, after it.
pub data LogItem : Type 0 where
  raw : ℕ → List ℕ → LogItem
  node_modify : ℕ → ℕ → List ℕ → List ℕ → LogItem
  node_alloc : ℕ → LogItem
  node_delete : ℕ → LogItem
  memory_alloc : ℕ → LogItem
  memory_delete : ℕ → LogItem

-- What is handed to an allocator, with the time from which on it may be used again.
pub data Freed : Type 0 where
  node_freed : ℕ → ℕ → Freed
  memory_freed : ℕ → ℕ → Freed

-- `log_undo_item`: the memory and what it frees
unfoldable pub log_undo_item : LogItem → ℕ → Bytes × List Freed → Bytes × List Freed
log_undo_item (raw p old) time (m, freed) = (write_bytes p old m, freed)
log_undo_item (node_modify p offset old new) time (m, freed) =
    (write_bytes (p + offset) old m, freed)
log_undo_item (node_alloc p) time (m, freed) = (m, node_freed p time ∷ freed)
log_undo_item (node_delete p) time (m, freed) = (m, freed)
log_undo_item (memory_alloc p) time (m, freed) = (m, memory_freed p time ∷ freed)
log_undo_item (memory_delete p) time (m, freed) = (m, freed)

-- The loops of `_tr_handle_rollback`: the log, newest item first, is undone until `pos` items are
-- left. An item's address in the source is its position here, and the null pointer 0.
unfoldable pub undo_to :
    ℕ → ℕ → List LogItem → Bytes × List Freed → List LogItem × (Bytes × List Freed)
undo_to pos time [] s = ([], s)
undo_to pos time (item ∷ log) s =
    if length (item ∷ log) == pos
    then (item ∷ log, s)
    else undo_to pos time log (log_undo_item item time s)
