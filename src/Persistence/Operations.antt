-- ===== src/Persistence/Operations.antt =====
-- What a transaction does to the nodes, apart from how it is written.
use hybrid_databases.Base.{
  ℕ, ◌^◌, ◌<◌, ◌≡◌, none, some, List, [], ltb, if◌then◌else◌, get_elem?, set, map,
}
use hybrid_databases.Storage.Items.{Items, nil, cons}
use hybrid_databases.Persistence.Emitting.{num}
use hybrid_databases.Persistence.Attributes.{Value, kind, HasKind, normal}
use hybrid_databases.Persistence.Attributes.Storing.{stored, stored_all, HaveTypes}
use hybrid_databases.Persistence.Attributes.Reading.{init_attributes}
use hybrid_databases.Persistence.Schema.{Attribute, NodeType, DatabaseType, attribute_types}
use hybrid_databases.Persistence.Loading.{Node, Store, changes, ArePossible}
use hybrid_databases.Persistence.Writing.{cbe_node_created, cbe_node_modified, cbe_node_deleted}
use hybrid_databases.Persistence.Reading.{put_node}

-- `create type id`, `modify id attribute value` and `delete id`
pub data Operation : Type 0 where
  create : ℕ → ℕ → Operation
  modify : ℕ → ℕ → Value → Operation
  delete : ℕ → Operation

-- The node that a creation makes.
unfoldable pub initial : DatabaseType → ℕ → Node
initial D type = record {
  type = type;
  attributes = elim (get_elem? D.node_types type) [
    | none ↦ []
    | some T ↦ init_attributes (attribute_types T)
  ];
}

-- A new node, whose id raises the counter.
unfoldable pub add_node : ℕ → Node → Store → Store
unfolding put_node
add_node id node S =
    put_node id (some node)
      (record S { node_id_counter = if ltb S.node_id_counter id then id else S.node_id_counter })

-- Creating a node that is there changes nothing, nor do changes of a node that is not there.
unfoldable pub apply_operation : DatabaseType → Operation → Store → Store
unfolding put_node add_node initial
apply_operation D (create type id) S = elim (S.nodes id) [
  | none ↦ add_node id (initial D type) S
  | some node ↦ S
]
apply_operation D (modify id attr value) S = elim (S.nodes id) [
  | none ↦ S
  | some node ↦
      put_node id (some (record node { attributes = set node.attributes attr (normal value) })) S
]
apply_operation D (delete id) S = elim (S.nodes id) [ none ↦ S | some node ↦ put_node id none S ]

abbrev pub apply_all : DatabaseType → List Operation → Store → Store
apply_all D = changes (apply_operation D)

-- The descriptor that an attribute of a node in the database has.
abbrev pub HasAttribute : DatabaseType → Node → ℕ → Value → Type 0
HasAttribute D node attr value =
    (T : NodeType) × (get_elem? D.node_types node.type ≡ some T)
    × ((a : Attribute) × (get_elem? T.attributes attr ≡ some a) × HasKind (kind a.type) value)

-- An operation that a transaction can have made on these nodes: the type of a created node is one
-- of the database's, and a changed attribute is one of the node's, with a value of its type. Ids
-- are 64-bit numbers.
abbrev pub IsLegal : DatabaseType → Store → Operation → Type 0
IsLegal D S (create type id) =
    (type < 2 ^ 64) × (id < 2 ^ 64) × ((T : NodeType) × (get_elem? D.node_types type ≡ some T))
IsLegal D S (modify id attr value) =
    (id < 2 ^ 64)
    × (attr < 2 ^ 31)
    × ((node : Node) → S.nodes id ≡ some node → HasAttribute D node attr value)
IsLegal D S (delete id) = id < 2 ^ 64

abbrev pub AreLegal : DatabaseType → Store → List Operation → Type 0
AreLegal D = ArePossible (apply_operation D) (IsLegal D)

-- What the element of an operation holds in the file
unfoldable pub operation_parts : Operation → Items
operation_parts (create type id) = cons (num cbe_node_created) (cons (num type) (cons (num id) nil))
operation_parts (modify id attr value) =
    cons (num cbe_node_modified) (cons (num id) (cons (num attr) (cons (stored value) nil)))
operation_parts (delete id) = cons (num cbe_node_deleted) (cons (num id) nil)

-- A node of a dump: its type, its id and its attributes
pub data Dumped : Type 0 where
  dumped : ℕ → ℕ → List Value → Dumped

unfoldable pub dumped_parts : Dumped → Items
dumped_parts (dumped type id values) = cons (num type) (cons (num id) (stored_all values))

unfoldable pub load_dumped : Dumped → Store → Store
unfolding add_node
load_dumped (dumped type id values) S =
    add_node id (record { type = type; attributes = map normal values }) S

abbrev pub IsLoadable : DatabaseType → Store → Dumped → Type 0
IsLoadable D S (dumped type id values) =
    (type < 2 ^ 64)
    × (id < 2 ^ 64)
    × (S.nodes id ≡ none)
    × ((T : NodeType) × (get_elem? D.node_types type ≡ some T)
        × HaveTypes (attribute_types T) values)
