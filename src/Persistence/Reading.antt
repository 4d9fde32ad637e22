-- ===== src/Persistence/Reading.antt =====
-- database.include/read.c, within an element
pub mod Replay
use hybrid_databases.Base.{
  ℕ, ◌+◌, ◌%◌, ◌^◌, Bool, true, false, Option, none, some, List, [], ◌∷◌, length, ltb, leb, ◌==◌,
  if◌then◌else◌, get_elem?, set,
}
use hybrid_databases.Storage.Reader.{Reader}
use hybrid_databases.Persistence.Attributes.{Value, type_id}
use hybrid_databases.Persistence.Attributes.Reading.{
  attribute_load, load_attributes, init_attributes,
}
use hybrid_databases.Persistence.Schema.{
  Attribute, NodeType, DatabaseType, attribute_types, schema_mark, file_mark,
}
use hybrid_databases.Persistence.Loading.{
  Load, Node, Store, Result, fault, ◌>>=◌, ◌>>◌, return, fail, ensure, get_store, put_store,
  r_number, r_skip, r_array, r_check_string, r_check_number,
}

unfoldable pub read_attributes : List Attribute → Load (Unit {0})
read_attributes [] = return tt
read_attributes (a ∷ attributes) = do
  r_array (do r_check_string a.name; r_check_number (type_id a.type))
  read_attributes attributes

unfoldable pub read_node_types : List NodeType → Load (Unit {0})
read_node_types [] = return tt
read_node_types (T ∷ types) = do
  r_array (do r_check_string T.name; read_attributes T.attributes)
  read_node_types types

-- What `read_schema` and `read_file_header` check in their first element
unfoldable pub schema_check : DatabaseType → Load (Unit {0})
schema_check D = r_array (do
  r_check_string schema_mark
  r_check_string D.name
  r_check_string D.version
  read_node_types D.node_types)

unfoldable pub header_check : DatabaseType → Load (Unit {0})
header_check D =
    r_array (do r_check_string file_mark; r_check_string D.name; r_check_string D.version)

-- `ndict_insert`, `ndict_remove` and changes of a node, on the nodes by id
unfoldable pub put_node : ℕ → Option Node → Store → Store
put_node id node S = record S { nodes = λ j. if j == id then node else S.nodes j }

-- A node that was just allocated; its attributes are set by `type->init`.
abbrev pub fresh : ℕ → Node
fresh type = record { type = type; attributes = [] }

-- `none` is the result -1: the id is taken. The memory that was allocated for the node is then lost.
unfoldable pub read_node_prepare : DatabaseType → Load (Option (NodeType × ℕ × ℕ))
unfolding put_node
read_node_prepare D = do
  type ← r_number
  ensure (ltb type (length D.node_types))
  id ← r_number
  S ← get_store
  elim (get_elem? D.node_types type) [
    | none ↦ fail
    | some T ↦ elim (S.nodes id) [
      | some node ↦ return none
      | none ↦ do
        put_store (
            put_node id (some (fresh type)) (record S {
              node_id_counter = if ltb S.node_id_counter id then id else S.node_id_counter;
            }))
        return (some (T, type, id))
    ]
  ]

abbrev pub set_attributes : ℕ → ℕ → List Value → Load (Unit {0})
set_attributes type id values = do
  S ← get_store
  put_store (put_node id (some (record { type = type; attributes = values })) S)

-- If the load of an attribute fails, those before it are not kept here.
unfoldable pub read_node_load : DatabaseType → Load (Unit {0})
unfolding read_node_prepare put_node
read_node_load D = do
  prepared ← read_node_prepare D
  elim prepared [
    | none ↦ fail
    | some (T, type, id) ↦ do
      set_attributes type id (init_attributes (attribute_types T))
      values ← load_attributes (attribute_types T)
      set_attributes type id values
  ]

unfoldable pub read_node_create : DatabaseType → Load (Unit {0})
unfolding read_node_prepare put_node
read_node_create D = do
  prepared ← read_node_prepare D
  elim prepared [
    | none ↦ return tt
    | some (T, type, id) ↦ set_attributes type id (init_attributes (attribute_types T))
  ]

unfoldable pub read_node_delete : Load (Unit {0})
unfolding put_node
read_node_delete = do
  id ← r_number
  S ← get_store
  elim (S.nodes id) [ none ↦ return tt | some node ↦ put_store (put_node id none S) ]

abbrev undefined : {A : Type 0} → Load A
undefined R S = fault

-- The number of the attribute is kept in an `int`, and compared as one: a negative one passes the
-- test and reads in front of the descriptors.
unfoldable pub read_node_modify : DatabaseType → Load (Unit {0})
unfolding put_node
read_node_modify D = do
  id ← r_number
  stored_index ← r_number
  S ← get_store
  let attr_id = stored_index % 2 ^ 32
  elim (S.nodes id) [
    | none ↦ r_skip
    | some node ↦ elim (get_elem? D.node_types node.type) [
      | none ↦ undefined
      | some T ↦ elim (leb (2 ^ 31) attr_id) [
        | true ↦ undefined
        | false ↦ elim (get_elem? T.attributes attr_id) [
          | none ↦ fail
          | some a ↦ do
            value ← attribute_load a.type
            put_store (
                put_node id (some (record node { attributes = set node.attributes attr_id value }))
                  S)
        ]
      ]
    ]
  ]
