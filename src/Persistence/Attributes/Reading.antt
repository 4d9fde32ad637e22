-- ===== src/Persistence/Attributes/Reading.antt =====
-- How attributes are loaded and initialised: the `Load` and `Init` blocks of attributes/defs.h, which
-- attributes/generate.pl puts into `attribute_load` and `attribute_init`, and the loops over the attributes
-- of a node that generate/generate_node.pl writes out.
use hybrid_databases.Base.{
  ℕ, ◌%◌, ◌^◌, ◌≡◌, refl, arith, Option, none, some, List, [], ◌∷◌, replicate, map,
}
use hybrid_databases.Persistence.Attributes.{
  AttributeType, Kind, Value, kind, generic, unsigned, text, blob, link, plain, number, bytes,
  node_id, HasKind, has_plain, has_number, has_no_text, has_text, has_blob, has_link, normal,
}
use hybrid_databases.Persistence.Attributes.Storing.{stored, stored_all, HaveTypes}
use hybrid_databases.Persistence.Loading.{
  Load, Store, ◌>>=◌, return, r_string, r_number, r_raw_string,
}
use hybrid_databases.Persistence.Loading.Reading.{
  Reads, ReadsAll, Reads-string, Reads-number, Reads-raw_string, Reads-then, ReadsAll-bind,
  ReadsAll-then, ReadsAll-return,
}

-- The pointer to the copy of a string: a null pointer for none.
unfoldable pub copied : List ℕ → Option (List ℕ)
copied [] = none
copied (b ∷ bs) = some (b ∷ bs)

unfoldable pub load_kind : Kind → Load Value
unfolding copied
load_kind (generic size) = do bs ← r_raw_string size; return (plain bs)
load_kind (unsigned size) = do n ← r_number; return (number (n % 256 ^ size))
load_kind text = do s ← r_string; return (bytes (copied s))
load_kind blob = do s ← r_string; return (bytes (copied s))
load_kind link = do id ← r_number; return (node_id id)

-- `attribute_load`, without the freeing of what the attribute held
unfoldable pub attribute_load : AttributeType → Load Value
unfolding load_kind
attribute_load type = load_kind (kind type)

unfoldable pub init_kind : Kind → Value
init_kind (generic size) = plain (replicate size 0)
init_kind (unsigned size) = number 0
init_kind text = bytes none
init_kind blob = bytes none
init_kind link = node_id 0

-- `attribute_init`
unfoldable pub attribute_init : AttributeType → Value
unfolding init_kind
attribute_init type = init_kind (kind type)

unfoldable pub load_attributes : List AttributeType → Load (List Value)
load_attributes [] = return []
load_attributes (type ∷ types) = do
  value ← attribute_load type
  values ← load_attributes types
  return (value ∷ values)

unfoldable pub init_attributes : List AttributeType → List Value
init_attributes types = map attribute_init types

load_kind-Reads :
    {k : Kind} {v : Value}
    → HasKind k v
    → (S : Store) → Reads (load_kind k) (stored v) (normal v) S S
unfolding load_kind stored normal
load_kind-Reads (has_plain size bs e) S =
    rw (← e) (Reads-then _ (Reads-raw_string bs S) (λ R. refl))
load_kind-Reads (has_number size n h k) S =
    let small : n % 256 ^ size ≡ n = grind arith in
    Reads-then _ (Reads-number n S k) (λ R. rw small refl)
load_kind-Reads has_no_text S = Reads-then _ (Reads-string [] S) (λ R. refl)
load_kind-Reads (has_text []) S = Reads-then _ (Reads-string [] S) (λ R. refl)
load_kind-Reads (has_text (b ∷ bs)) S = Reads-then _ (Reads-string (b ∷ bs) S) (λ R. refl)
load_kind-Reads (has_blob []) S = Reads-then _ (Reads-string [] S) (λ R. refl)
load_kind-Reads (has_blob (b ∷ bs)) S = Reads-then _ (Reads-string (b ∷ bs) S) (λ R. refl)
load_kind-Reads (has_link id h) S = Reads-then _ (Reads-number id S h) (λ R. refl)

pub attribute_load-Reads :
    (type : AttributeType) {v : Value}
    → HasKind (kind type) v
    → (S : Store) → Reads (attribute_load type) (stored v) (normal v) S S
unfolding attribute_load
attribute_load-Reads type h S = load_kind-Reads h S

-- The attributes of a node are loaded as they were stored, but for empty strings.
pub load_attributes-ReadsAll :
    (types : List AttributeType) (vs : List Value)
    → HaveTypes types vs
    → (end : List ℕ) (S : Store)
    → ReadsAll end (load_attributes types) (stored_all vs) (map normal vs) S S
unfolding load_attributes
load_attributes-ReadsAll [] [] h end S = ReadsAll-return [] end S
load_attributes-ReadsAll [] (v ∷ vs) h end S = absurd h
load_attributes-ReadsAll (type ∷ types) [] h end S = absurd h
load_attributes-ReadsAll (type ∷ types) (v ∷ vs) h end S =
    ReadsAll-bind _ (attribute_load-Reads type h.0 S)
      (ReadsAll-then _ (load_attributes-ReadsAll types vs h.1 end S) (λ R. refl))
