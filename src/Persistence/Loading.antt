-- ===== src/Persistence/Loading.antt =====
-- The reading macros of storage.include/macros.h over the state that a load changes: the reader,
-- and the nodes found so far.
pub mod Reading
use hybrid_databases.Base.{
  ℕ, ◌+◌, ◌^◌, ◌≡◌, refl, Bool, true, false, Option, List, [], ◌∷◌, length, ◌==◌, if◌then◌else◌,
  ◌&&◌,
}
use hybrid_databases.Storage.Reader
use hybrid_databases.Storage.Reader.{Reader, Outcome}
use hybrid_databases.Persistence.Attributes.{Value}

-- A node as the file knows it: the index of its type and its attributes.
pub record Node : Type 0 where
  pub type : ℕ
  pub attributes : List Value

-- The nodes by id, and `D->node_id_counter`.
pub record Store : Type 0 where
  pub nodes : ℕ → Option Node
  pub node_id_counter : ℕ

-- Changes of the nodes one after the other, each of which is possible where it is made.
abbrev pub changes : {X : Type 0} → (X → Store → Store) → List X → Store → Store
changes change [] S = S
changes change (x ∷ xs) S = changes change xs (change x S)

abbrev pub ArePossible :
    {X : Type 0} → (X → Store → Store) → (Store → X → Type 0) → Store → List X → Type 0
ArePossible change IsPossible S [] = Unit
ArePossible change IsPossible S (x ∷ xs) =
    IsPossible S x × ArePossible change IsPossible (change x S) xs

-- `corrupted` is the failure of a reading macro, at which the changes made so far stay; `fault`
-- is undefined behaviour of C.
pub data Result {ℓ} (A : Type ℓ) : Type ℓ where
  got : A → Reader → Store → Result A
  corrupted : Store → Result A
  fault : Result A

abbrev pub Load : Type 0 → Type 0
Load A = Reader → Store → Result A

infixl 5 ◌>>=◌ ◌>>◌
unfoldable pub ◌>>=◌ : {A B : Type 0} → Load A → (A → Load B) → Load B
◌>>=◌ m f R S = elim (m R S) [
  | got a R' S' ↦ f a R' S'
  | corrupted S' ↦ corrupted S'
  | fault ↦ fault
]

pub >>=-got :
    {A B : Type 0} (m : Load A) (f : A → Load B) {a : A} {r : Result B} (R : Reader) {R' : Reader}
    (S : Store) {S' : Store}
    → m R S ≡ got a R' S'
    → f a R' S' ≡ r
    → (m >>= f) R S ≡ r
unfolding ◌>>=◌
>>=-got m f R S e h = rw (e, ◌>>=◌) h

abbrev pub ◌>>◌ : {B : Type 0} → Load (Unit {0}) → Load B → Load B
m >> k = m >>= λ _. k

abbrev pub return : {A : Type 0} → A → Load A
return a R S = got a R S

-- `readFailed`
abbrev pub fail : {A : Type 0} → Load A
fail R S = corrupted S

-- `Ensure(b)`
abbrev pub ensure : Bool → Load (Unit {0})
ensure true = return tt
ensure false = fail

abbrev pub get_store : Load Store
get_store R S = got S R S

abbrev pub put_store : Store → Load (Unit {0})
put_store S' R S = got tt R S'

-- A reading function, of which `false` makes the macro fail.
abbrev pub after : {A : Type 0} → Store → Outcome (A × Reader) → Result A
after S (Reader.ok (a, R)) = got a R S
after S Reader.fail = corrupted S
after S Reader.fault = fault

abbrev pub after_mark : Store → Outcome Reader → Result (Unit {0})
after_mark S (Reader.ok R) = got tt R S
after_mark S Reader.fail = corrupted S
after_mark S Reader.fault = fault

-- `rNumber`, `read_string` with the macros that test what it gives, `rNext` and `rSkip`
unfoldable pub r_number : Load ℕ
r_number R S = after S (Reader.read_number R)

unfoldable pub r_string : Load (List ℕ)
r_string R S = after S (Reader.read_string R)

unfoldable pub r_next : Load ℕ
r_next R S = got (Reader.reader_next R) R S

unfoldable pub r_skip : Load (Unit {0})
r_skip R S = after_mark S (Reader.reader_skip R)

unfoldable pub r_mark : Load (Unit {0})
r_mark R S = after_mark S (Reader.read_array R)

unfoldable pub r_mark_end : Load (Unit {0})
r_mark_end R S = after_mark S (Reader.read_array_end R)

-- `rArray { ... } rArrayEnd`
unfoldable pub r_array : {A : Type 0} → Load A → Load A
r_array body = do r_mark; a ← body; r_mark_end; return a

-- The bytes compared by `strlen` and `strncmp`, or by `memcmp`
unfoldable pub same_bytes : List ℕ → List ℕ → Bool
same_bytes [] [] = true
same_bytes [] (y ∷ ys) = false
same_bytes (x ∷ xs) [] = false
same_bytes (x ∷ xs) (y ∷ ys) = x == y && same_bytes xs ys

-- `rCheckString(str)`, where no string holds a zero
unfoldable pub r_check_string : List ℕ → Load (Unit {0})
r_check_string s = do t ← r_string; ensure (same_bytes s t)

-- `rCheckNumber(num)`
unfoldable pub r_check_number : ℕ → Load (Unit {0})
r_check_number n = do m ← r_number; ensure (m == n)

-- `rRawString(len)`
unfoldable pub r_raw_string : ℕ → Load (List ℕ)
r_raw_string len = do s ← r_string; ensure (length s == len); return s
