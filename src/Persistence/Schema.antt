-- ===== src/Persistence/Schema.antt =====
-- The descriptors of database.types/database.h and node_type.h, as far as files depend on them,
-- and the marks that the files hold.
use Prim.Native.Char.{code}
use Prim.Native.String.{String}
use hybrid_databases.Base.{ℕ, List, [], ◌∷◌, map}
use hybrid_databases.Persistence.Attributes.{AttributeType}

-- `struct NodeAttribute`
pub record Attribute : Type 0 where
  pub name : List ℕ
  pub type : AttributeType

-- `NodeType`; its `id` is its index among those of the database.
pub record NodeType : Type 0 where
  pub name : List ℕ
  pub attributes : List Attribute

-- `DatabaseType`
pub record DatabaseType : Type 0 where
  pub name : List ℕ
  pub version : List ℕ
  pub node_types : List NodeType

abbrev pub attribute_types : NodeType → List AttributeType
attribute_types T = map (λ (a : Attribute). a.type) T.attributes

-- The bytes of a string literal
abbrev pub chars : String → List ℕ
chars String.[] = []
chars (String.◌∷◌ c s) = code c ∷ chars s

unfoldable pub schema_mark : List ℕ
schema_mark = chars "HybridDatabase Database Schema"

unfoldable pub file_mark : List ℕ
file_mark = chars "HybridDatabase Data File"

unfoldable pub footer_mark : List ℕ
footer_mark = chars "END OF FILE"

unfoldable pub dump_begin_mark : List ℕ
dump_begin_mark = chars "DUMP BEGIN"

unfoldable pub dump_end_mark : List ℕ
dump_end_mark = chars "DUMP END"
