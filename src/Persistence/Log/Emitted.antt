-- ===== src/Persistence/Log/Emitted.antt =====
-- A processed log stands in the writer as one root element with an array for each operation.
use hybrid_databases.Base.{
  ℕ, ◌+◌, ◌^◌, ◌≤◌, ◌≡◌, refl, ap, ◌∙◌, arith, Bool, Option, some, List, [], ◌∷◌, ◌++◌, length,
  true,
}
use hybrid_databases.Base.Options.{◌>>=◌, >>=-eq-some}
use hybrid_databases.Storage.Items.{Item, arr, encode}
use hybrid_databases.Storage.Writer.{Writer, ptr, writer_finish}
use hybrid_databases.Storage.Writer.Bounds.{
  IsValid, Appends-IsValid, ptr-Appends, writer_finish_lem, root_bytes,
}
use hybrid_databases.Persistence.Emitting.{
  w_array, Writes, WritesAll, Writes-array, Writes-number, WritesAll-none, WritesAll-cons,
  WritesAll-last, arrays, writing,
}
use hybrid_databases.Persistence.Attributes.{AttributeType, Value, kind, HasKind}
use hybrid_databases.Persistence.Attributes.Storing.{attribute_store-Writes}
use hybrid_databases.Persistence.Operations.{Operation, create, modify, delete, operation_parts}
use hybrid_databases.Persistence.Writing.{write_node_alloc, write_node_delete, write_node_modify}
use hybrid_databases.Persistence.Log.{
  LogItem, raw, node_modify, node_alloc, node_delete, memory_alloc, memory_delete, Garbage,
  write_log, log_garbage, process_transaction_log, operations,
}

-- The new value of each item fits the type that it names.
abbrev pub AreTyped : List LogItem → Type 0
AreTyped [] = Unit
AreTyped (node_modify ptr id index type value ∷ log) = HasKind (kind type) value × AreTyped log
AreTyped (node_alloc ptr type id ∷ log) = AreTyped log
AreTyped (node_delete ptr id ∷ log) = AreTyped log
AreTyped (raw ptr ∷ log) = AreTyped log
AreTyped (memory_alloc ptr ∷ log) = AreTyped log
AreTyped (memory_delete ptr ∷ log) = AreTyped log

write_node_alloc-Writes :
    (type id : ℕ) → Writes (write_node_alloc type id) (arr (operation_parts (create type id)))
unfolding write_node_alloc operation_parts
write_node_alloc-Writes type id = search writing

write_node_delete-Writes :
    (id : ℕ) → Writes (write_node_delete id) (arr (operation_parts (delete id)))
unfolding write_node_delete operation_parts
write_node_delete-Writes id = search writing

write_node_modify-Writes :
    (id index : ℕ) (type : AttributeType) (value : Value)
    → HasKind (kind type) value
    → Writes (write_node_modify id index type value) (arr (operation_parts (modify id index value)))
unfolding write_node_modify operation_parts
write_node_modify-Writes id index type value h = Writes-array (
    WritesAll-cons (Writes-number 1) (
      WritesAll-cons (Writes-number id)
        (WritesAll-cons (Writes-number index) (WritesAll-last (attribute_store-Writes type h)))))

write_log-WritesAll :
    (log : List LogItem)
    → AreTyped log
    → WritesAll (write_log log) (arrays operation_parts (operations log))
unfolding write_log operations
write_log-WritesAll [] h = WritesAll-none
write_log-WritesAll (node_modify ptr id index type value ∷ log) h =
    WritesAll-cons (write_node_modify-Writes id index type value h.0) (write_log-WritesAll log h.1)
write_log-WritesAll (node_alloc ptr type id ∷ log) h =
    WritesAll-cons (write_node_alloc-Writes type id) (write_log-WritesAll log h)
write_log-WritesAll (node_delete ptr id ∷ log) h =
    WritesAll-cons (write_node_delete-Writes id) (write_log-WritesAll log h)
write_log-WritesAll (raw ptr ∷ log) h = write_log-WritesAll log h
write_log-WritesAll (memory_alloc ptr ∷ log) h = write_log-WritesAll log h
write_log-WritesAll (memory_delete ptr ∷ log) h = write_log-WritesAll log h

-- One root element is sealed behind those before it.
pub record Sealed (W : Writer) (checksum : Bool) (x : Item) (W' : Writer) : Type 0 where
  pub sealed : W'.sealed ≡ W.sealed ++ root_bytes checksum (encode x)
  pub cur : W'.cur ≡ []
  pub depth : W'.depth ≡ 0
  pub valid : IsValid W'

-- A writer between two elements
pub record IsIdle (W : Writer) : Type 0 where
  pub valid : IsValid W
  pub cur : W.cur ≡ []
  pub depth : W.depth ≡ 0

pub Sealed-IsIdle :
    {W W' : Writer} {checksum : Bool} {x : Item} → Sealed W checksum x W' → IsIdle W'
Sealed-IsIdle s = record { valid = s.valid; cur = s.cur; depth = s.depth }

-- An element and the `wFinish` behind it
pub Writes-finish :
    {f : Writer → Option Writer} {x : Item} {W : Writer} (checksum : Bool)
    → Writes f x
    → IsIdle W
    → ptr W + length (encode x) + 16 ≤ 2 ^ 61
    → (W' : Writer) × ((f W >>= λ W1. writer_finish W1 checksum) ≡ some W') × Sealed W checksum x W'
Writes-finish {f} {x} {W} checksum w idle h =
    let (W1, e1, a) = (w.emits 0).run W idle.valid idle.depth (omega arith) in
    let (W2, e2, b) =
      writer_finish_lem checksum (Appends-IsValid a) a.depth (omega (arith, ptr-Appends a)) in
    let same : W1.cur ≡ encode x = a.cur ∙ ap (λ (t : List ℕ). t ++ encode x) idle.cur in
    (
      W2,
      rw e1 e2,
      record {
        sealed = b.sealed ∙ rw (same, a.sealed) refl;
        cur = b.cur;
        depth = b.depth;
        valid = record { room = b.room; small = b.small };
      },
    )

-- The root element of a log
abbrev pub log_item : List Operation → Item
log_item ops = arr (arrays operation_parts ops)

-- Between two elements, with room up to 2 ^ 61 and values of the types that they are written as,
-- processing a log succeeds within the buffer: it puts one root element with a checksum behind
-- those before, which holds an array for each creation, change and deletion of a node in the order
-- of the log and nothing for the rest, pushes the deleted nodes and the freed memory behind what
-- is on the garbage stack, and leaves the log empty.
pub process_transaction_log_lem :
    (log : List LogItem) (W : Writer) (garbage_stack : List Garbage)
    → AreTyped log
    → IsIdle W
    → ptr W + length (encode (log_item (operations log))) + 16 ≤ 2 ^ 61
    → (W' : Writer) × (process_transaction_log log W garbage_stack
        ≡ some (W', garbage_stack ++ log_garbage log, []))
      × Sealed W true (log_item (operations log)) W'
unfolding process_transaction_log
process_transaction_log_lem log W garbage_stack typed idle h =
    let (W', e, s) = Writes-finish true (Writes-array (write_log-WritesAll log typed)) idle h in
    let (W1, e1, e2) = >>=-eq-some (w_array (write_log log) W) (λ V. writer_finish V true) e in
    (W', rw (e1, e2) refl, s)
