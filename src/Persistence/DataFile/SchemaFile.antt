-- ===== src/Persistence/DataFile/SchemaFile.antt =====
-- The file with the schema: `write_schema` of database.include/write.c and `read_schema` of read.c.
use hybrid_databases.Base.{
  ℕ, ◌+◌, ◌^◌, ◌<◌, ◌≤◌, ◌≡◌, refl, arith, true, List, [], ◌∷◌, ◌++◌, length,
}
use hybrid_databases.Storage.Items.{Item, Items, str, arr, nil, cons, encode}
use hybrid_databases.Storage.Writer.{Writer}
use hybrid_databases.Storage.Writer.Bounds.{root_bytes}
use hybrid_databases.Persistence.Emitting.{
  num, arrays, Writes, WritesAll, Writes-string, Writes-number, Writes-array, WritesAll-none,
  WritesAll-cons, WritesAll-last,
}
use hybrid_databases.Persistence.Attributes.{AttributeType, type_id}
use hybrid_databases.Persistence.Schema.{Attribute, NodeType, DatabaseType, schema_mark}
use hybrid_databases.Persistence.Writing.{
  write_attributes, write_node_types, schema_body, write_schema,
}
use hybrid_databases.Persistence.Reading.{read_attributes, read_node_types, schema_check}
use hybrid_databases.Persistence.Loading.{Store}
use hybrid_databases.Storage.Format.{array_end}
use hybrid_databases.Persistence.Loading.Reading.{
  Reads, ReadsAll, Reads-array, Reads-check_string, Reads-check_number, Reads-last, ReadsAll-bind,
  ReadsAll-return,
}
use hybrid_databases.Persistence.Loads.{loaded, read_schema}
use hybrid_databases.Persistence.Loads.Transactions.{Placed, root-Reads}
use hybrid_databases.Persistence.Log.Emitted.{IsIdle}
use hybrid_databases.Persistence.DataFile.Pieces.{Written, element}

abbrev attribute_parts : Attribute → Items
attribute_parts a = cons (str a.name) (cons (num (type_id a.type)) nil)

abbrev type_parts : NodeType → Items
type_parts T = cons (str T.name) (arrays attribute_parts T.attributes)

-- The schema as an element
abbrev pub schema_item : DatabaseType → Item
schema_item D = arr (
    cons (str schema_mark)
      (cons (str D.name) (cons (str D.version) (arrays type_parts D.node_types))))

attributes_written :
    (attributes : List Attribute)
    → WritesAll (write_attributes attributes) (arrays attribute_parts attributes)
unfolding write_attributes
attributes_written [] = WritesAll-none
attributes_written (a ∷ attributes) =
    WritesAll-cons
      (Writes-array
        (WritesAll-cons (Writes-string a.name) (WritesAll-last (Writes-number (type_id a.type)))))
      (attributes_written attributes)

types_written :
    (types : List NodeType) → WritesAll (write_node_types types) (arrays type_parts types)
unfolding write_node_types
types_written [] = WritesAll-none
types_written (T ∷ types) =
    WritesAll-cons
      (Writes-array (WritesAll-cons (Writes-string T.name) (attributes_written T.attributes)))
      (types_written types)

schema_body-Writes : (D : DatabaseType) → Writes (schema_body D) (schema_item D)
unfolding schema_body
schema_body-Writes D = Writes-array (
    WritesAll-cons (Writes-string schema_mark) (
      WritesAll-cons (Writes-string D.name)
        (WritesAll-cons (Writes-string D.version) (types_written D.node_types))))

type_id-lt : (type : AttributeType) → type_id type < 2 ^ 64
unfolding type_id
type_id-lt AttributeType.int8 = omega arith
type_id-lt _ = omega arith

module _ (S : Store) where
  attributes_read :
      (end : List ℕ) (attributes : List Attribute)
      → ReadsAll end (read_attributes attributes) (arrays attribute_parts attributes) tt S S
  unfolding read_attributes
  attributes_read end [] = ReadsAll-return tt end S
  attributes_read end (a ∷ attributes) =
      ReadsAll-bind _
        (Reads-array (
          ReadsAll-bind _ (Reads-check_string a.name S)
            (Reads-last _ (Reads-check_number (type_id a.type) S (type_id-lt a.type)))))
        (attributes_read end attributes)

  types_read :
      (end : List ℕ) (types : List NodeType)
      → ReadsAll end (read_node_types types) (arrays type_parts types) tt S S
  unfolding read_node_types
  types_read end [] = ReadsAll-return tt end S
  types_read end (T ∷ types) =
      ReadsAll-bind _
        (Reads-array (
          ReadsAll-bind _ (Reads-check_string T.name S)
            (attributes_read (array_end ∷ []) T.attributes)))
        (types_read end types)

  schema_read : (D : DatabaseType) → Reads (schema_check D) (schema_item D) tt S S
  unfolding schema_check
  schema_read D = Reads-array (
      ReadsAll-bind _ (Reads-check_string schema_mark S) (
        ReadsAll-bind _ (Reads-check_string D.name S) (
          ReadsAll-bind _ (Reads-check_string D.version S)
            (types_read (array_end ∷ []) D.node_types))))

pub write_schema_lem :
    (D : DatabaseType) (W : Writer)
    → IsIdle W
    → length W.sealed + length (encode (schema_item D)) ≤ 2 ^ 60
    → Written W (root_bytes true (encode (schema_item D))) (write_schema D W)
unfolding write_schema
write_schema_lem D W idle h = element true (schema_body-Writes D) idle h

pub read_schema_lem :
    (D : DatabaseType) (address : List ℕ → ℕ) (file : List ℕ) (S : Store)
    → Placed address (root_bytes true (encode (schema_item D)) ++ file)
    → read_schema address D (root_bytes true (encode (schema_item D)) ++ file) S ≡ loaded tt file S
unfolding read_schema
read_schema_lem D address file S p = root-Reads address true true file (schema_read S D) refl p

-- Between two elements, with room up to 2 ^ 60, writing the schema of a database succeeds and puts
-- one root element with a checksum behind those that are sealed; and where a file begins with the
-- bytes of that element, at addresses below 2 ^ 62, `read_schema` for the same database accepts them and stands
-- behind them.
pub read_schema-write_schema :
    (D : DatabaseType) (W : Writer) (address : List ℕ → ℕ) (file : List ℕ) (S : Store)
    → IsIdle W
    → length W.sealed + length (encode (schema_item D)) ≤ 2 ^ 60
    → Placed address (root_bytes true (encode (schema_item D)) ++ file)
    → Written W (root_bytes true (encode (schema_item D))) (write_schema D W)
      × (read_schema address D (root_bytes true (encode (schema_item D)) ++ file) S
          ≡ loaded tt file S)
read_schema-write_schema D W address file S idle h p =
    (write_schema_lem D W idle h, read_schema_lem D address file S p)
