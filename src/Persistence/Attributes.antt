-- ===== src/Persistence/Attributes.antt =====
-- The types of attributes and their values: attributes/defs.h.
pub mod Storing
pub mod Reading
use hybrid_databases.Base.{ℕ, ◌+◌, ◌^◌, ◌<◌, ◌≡◌, ◌≢◌, Option, none, some, List, [], ◌∷◌, length}

-- The types in the order of the file, which numbers them from 0.
pub data AttributeType : Type 0 where
  int8 : AttributeType
  int16 : AttributeType
  int32 : AttributeType
  int64 : AttributeType
  uint8 : AttributeType
  uint16 : AttributeType
  uint32 : AttributeType
  uint64 : AttributeType
  float : AttributeType
  double : AttributeType
  long_double : AttributeType
  string : AttributeType
  raw_string : AttributeType
  pointer : AttributeType

-- The number that the generated `enum` gives to a type.
unfoldable pub type_id : AttributeType → ℕ
type_id int8 = 0
type_id int16 = 1
type_id int32 = 2
type_id int64 = 3
type_id uint8 = 4
type_id uint16 = 5
type_id uint32 = 6
type_id uint64 = 7
type_id float = 8
type_id double = 9
type_id long_double = 10
type_id string = 11
type_id raw_string = 12
type_id pointer = 13

-- How a type is kept on the disk: as the bytes of the value, as a number of so many bytes, or by
-- a routine of its own.
pub data Kind : Type 0 where
  generic : ℕ → Kind
  unsigned : ℕ → Kind
  text : Kind
  blob : Kind
  link : Kind

abbrev pub kind : AttributeType → Kind
kind int8 = generic 1
kind int16 = generic 2
kind int32 = generic 4
kind int64 = generic 8
kind uint8 = unsigned 1
kind uint16 = unsigned 2
kind uint32 = unsigned 4
kind uint64 = unsigned 8
kind float = generic 4
kind double = generic 8
kind long_double = generic 16
kind string = text
kind raw_string = blob
kind pointer = link

-- A value in memory: the bytes of a signed or floating number, an unsigned number, what a string
-- pointer leads to, or the id of the node that a pointer leads to, where 0 is no node.
pub data Value : Type 0 where
  plain : List ℕ → Value
  number : ℕ → Value
  bytes : Option (List ℕ) → Value
  node_id : ℕ → Value

-- A value that fits a kind. A raw string that leads nowhere fits none: storing it reads through
-- the null pointer.
pub data HasKind : Kind → Value → Type 0 where
  has_plain : (size : ℕ) (bs : List ℕ) → length bs ≡ size → HasKind (generic size) (plain bs)
  has_number : (size n : ℕ) → n < 256 ^ size → n < 2 ^ 64 → HasKind (unsigned size) (number n)
  has_no_text : HasKind text (bytes none)
  has_text : (s : List ℕ) → HasKind text (bytes (some s))
  has_blob : (s : List ℕ) → HasKind blob (bytes (some s))
  has_link : (id : ℕ) → id < 2 ^ 64 → HasKind link (node_id id)

-- What is left of a value that was stored and loaded: an empty string leads nowhere.
unfoldable pub normal : Value → Value
normal (plain bs) = plain bs
normal (number n) = number n
normal (bytes none) = bytes none
normal (bytes (some [])) = bytes none
normal (bytes (some (b ∷ bs))) = bytes (some (b ∷ bs))
normal (node_id id) = node_id id
