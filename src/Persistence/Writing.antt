-- ===== src/Persistence/Writing.antt =====
-- database.include/write.c
use hybrid_databases.Base.{ℕ, true, false, Option, some, List, [], ◌∷◌}
use hybrid_databases.Base.Options.{◌>>=◌}
use hybrid_databases.Storage.Writer.{Writer, write_string, write_number, writer_finish}
use hybrid_databases.Persistence.Emitting.{w_array}
use hybrid_databases.Persistence.Attributes.{AttributeType, Value, type_id}
use hybrid_databases.Persistence.Attributes.Storing.{attribute_store, store_attributes}
use hybrid_databases.Persistence.Schema.{
  Attribute, NodeType, DatabaseType, schema_mark, file_mark, footer_mark, dump_begin_mark,
  dump_end_mark,
}

-- The inner loop of `write_schema`, and the outer one
unfoldable pub write_attributes : List Attribute → Writer → Option Writer
write_attributes [] W = some W
write_attributes (a ∷ attributes) W = do
  W1 ← w_array (λ V. do V1 ← write_string V a.name; write_number V1 (type_id a.type)) W
  write_attributes attributes W1

unfoldable pub write_node_types : List NodeType → Writer → Option Writer
write_node_types [] W = some W
write_node_types (T ∷ types) W = do
  W1 ← w_array (λ V. do V1 ← write_string V T.name; write_attributes T.attributes V1) W
  write_node_types types W1

unfoldable pub schema_body : DatabaseType → Writer → Option Writer
schema_body D = w_array λ W. do
  W1 ← write_string W schema_mark
  W2 ← write_string W1 D.name
  W3 ← write_string W2 D.version
  write_node_types D.node_types W3

unfoldable pub write_schema : DatabaseType → Writer → Option Writer
write_schema D W = do W1 ← schema_body D W; writer_finish W1 true

unfoldable pub header_body : DatabaseType → Writer → Option Writer
header_body D =
    w_array
      λ W. do W1 ← write_string W file_mark; W2 ← write_string W1 D.name; write_string W2 D.version

unfoldable pub write_file_header : DatabaseType → ℕ → Writer → Option Writer
write_file_header D magic_nr W = do
  W1 ← header_body D W
  W2 ← writer_finish W1 true
  W3 ← write_number W2 magic_nr
  writer_finish W3 false

unfoldable pub write_file_footer : ℕ → Writer → Option Writer
write_file_footer magic W = do
  W1 ← write_string W footer_mark
  W2 ← writer_finish W1 false
  W3 ← write_number W2 magic
  writer_finish W3 false

unfoldable pub write_dump_begin : Writer → Option Writer
write_dump_begin W = do W1 ← write_string W dump_begin_mark; writer_finish W1 false

unfoldable pub write_dump_end : Writer → Option Writer
write_dump_end W = do W1 ← write_string W dump_end_mark; writer_finish W1 false

-- The attributes are stored by the `store` of the node's type.
unfoldable pub write_node_store : ℕ → ℕ → List AttributeType → List Value → Writer → Option Writer
write_node_store type id types values =
    w_array
      λ W. do W1 ← write_number W type; W2 ← write_number W1 id; store_attributes types values W2

-- `CBE_NODE_CREATED`, `CBE_NODE_MODIFIED` and `CBE_NODE_DELETED`
abbrev pub cbe_node_created : ℕ
cbe_node_created = 0

abbrev pub cbe_node_modified : ℕ
cbe_node_modified = 1

abbrev pub cbe_node_deleted : ℕ
cbe_node_deleted = 2

unfoldable pub write_node_alloc : ℕ → ℕ → Writer → Option Writer
write_node_alloc type id =
    w_array
      λ W. do W1 ← write_number W cbe_node_created; W2 ← write_number W1 type; write_number W2 id

unfoldable pub write_node_delete : ℕ → Writer → Option Writer
write_node_delete id = w_array λ W. do W1 ← write_number W cbe_node_deleted; write_number W1 id

unfoldable pub write_node_modify : ℕ → ℕ → AttributeType → Value → Writer → Option Writer
write_node_modify node_id attr type value = w_array λ W. do
  W1 ← write_number W cbe_node_modified
  W2 ← write_number W1 node_id
  W3 ← write_number W2 attr
  attribute_store type value W3
