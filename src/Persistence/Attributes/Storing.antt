-- ===== src/Persistence/Attributes/Storing.antt =====
-- How attributes are stored: the `Store` blocks of attributes/defs.h, which attributes/generate.pl
-- puts into `attribute_store`, and the `store` that generate/generate_node.pl writes for a node type.
use hybrid_databases.Base.{
  true, ◌≡◌, refl, arith, Option, none, some, List, [], ◌∷◌, length, ◌==◌, if◌then◌else◌,
}
use hybrid_databases.Base.Options.{◌>>=◌}
use hybrid_databases.Storage.Writer.{Writer, write_string, write_number}
use hybrid_databases.Storage.Codes.{digits}
use hybrid_databases.Storage.Items.{Item, Items, str, nil, cons}
use hybrid_databases.Persistence.Emitting.{
  num, Writes, Writes-ext, WritesAll, Writes-string, Writes-number, WritesAll-none, WritesAll-cons,
}
use hybrid_databases.Persistence.Attributes.{
  AttributeType, Kind, Value, kind, generic, unsigned, text, blob, link, plain, number, bytes,
  node_id, HasKind, has_plain, has_number, has_no_text, has_text, has_blob, has_link,
}

unfoldable pub store_kind : Kind → Value → Writer → Option Writer
store_kind (generic size) (plain bs) W = if length bs == size then write_string W bs else none
store_kind (unsigned size) (number n) W = write_number W n
store_kind text (bytes none) W = write_string W []
store_kind text (bytes (some s)) W = write_string W s
store_kind blob (bytes (some [])) W = write_number W 0
store_kind blob (bytes (some (b ∷ bs))) W = write_string W (b ∷ bs)
store_kind link (node_id id) W = write_number W id
store_kind _ _ W = none

-- `attribute_store`; `none` where a null pointer is read through, or the value has another type.
unfoldable pub attribute_store : AttributeType → Value → Writer → Option Writer
unfolding store_kind
attribute_store type value W = store_kind (kind type) value W

-- The `store` of a node type
unfoldable pub store_attributes : List AttributeType → List Value → Writer → Option Writer
store_attributes [] [] W = some W
store_attributes (type ∷ types) (value ∷ values) W =
    attribute_store type value W >>= store_attributes types values
store_attributes _ _ W = none

-- The element that a value is stored as.
unfoldable pub stored : Value → Item
stored (plain bs) = str bs
stored (number n) = num n
stored (bytes none) = str []
stored (bytes (some s)) = str s
stored (node_id id) = num id

abbrev pub stored_all : List Value → Items
stored_all [] = nil
stored_all (v ∷ vs) = cons (stored v) (stored_all vs)

store_kind-Writes : {k : Kind} {v : Value} → HasKind k v → Writes (store_kind k v) (stored v)
unfolding store_kind stored digits
store_kind-Writes (has_plain size bs e) =
    let q : (length bs == size) ≡ true = ground arith in
    Writes-ext (λ W. rw q refl) (Writes-string bs)
store_kind-Writes (has_number size n h k) = Writes-number n
store_kind-Writes has_no_text = Writes-string []
store_kind-Writes (has_text s) = Writes-string s
store_kind-Writes (has_blob []) = Writes-number 0
store_kind-Writes (has_blob (b ∷ bs)) = Writes-string (b ∷ bs)
store_kind-Writes (has_link id h) = Writes-number id

-- The values of a node fit the types of its attributes, one by one.
abbrev pub HaveTypes : List AttributeType → List Value → Type 0
HaveTypes [] [] = Unit
HaveTypes (type ∷ types) (v ∷ vs) = HasKind (kind type) v × HaveTypes types vs
HaveTypes _ _ = ⊥

pub attribute_store-Writes :
    (type : AttributeType) {v : Value}
    → HasKind (kind type) v
    → Writes (attribute_store type v) (stored v)
unfolding attribute_store
attribute_store-Writes type h = store_kind-Writes h

pub store_attributes-WritesAll :
    (types : List AttributeType) (vs : List Value)
    → HaveTypes types vs
    → WritesAll (store_attributes types vs) (stored_all vs)
unfolding store_attributes
store_attributes-WritesAll [] [] h = WritesAll-none
store_attributes-WritesAll [] (v ∷ vs) h = absurd h
store_attributes-WritesAll (type ∷ types) [] h = absurd h
store_attributes-WritesAll (type ∷ types) (v ∷ vs) h =
    WritesAll-cons (attribute_store-Writes type h.0) (store_attributes-WritesAll types vs h.1)
