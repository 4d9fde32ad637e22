-- ===== src/Persistence/Loads/Transactions.antt =====
-- The root elements of a data file, one by one.
use hybrid_databases.Base.{
  ℕ, ◌+◌, ◌^◌, ◌<◌, ◌≤◌, ◌≡◌, refl, arith, Bool, true, false, not, List, [], ◌∷◌, ◌++◌, length,
  length-append, append_assoc, ◌&&◌,
}
use hybrid_databases.Storage.Format.{array_end, string_mark}
use hybrid_databases.Storage.Writer.{trailer, header}
use hybrid_databases.Storage.Writer.Bounds.{root_bytes, length-header, trailer_bounds}
use hybrid_databases.Storage.Reader.{reader_next}
use hybrid_databases.Storage.Reader.Lengths.{at, reader_next_string}
use hybrid_databases.Storage.Frames.{reader_begin_lem, reader_finish_lem}
use hybrid_databases.Storage.Items.{Item, Items, cons, encode, encode_items}
use hybrid_databases.Persistence.Emitting.{num, arrays}
use hybrid_databases.Persistence.Schema.{DatabaseType}
use hybrid_databases.Persistence.Loading.{ensure, Load, Store, ◌>>=◌, changes, ArePossible, r_next}
use hybrid_databases.Persistence.Loading.Reading.{
  Reads, ReadsAll, ReadsAll-bind, ReadsAll-first, ReadsAll-skip, Reads-check_number,
}
use hybrid_databases.Persistence.Operations.{
  Operation, operation_parts, apply_operation, apply_all, IsLegal, AreLegal, Dumped, dumped_parts,
  load_dumped, IsLoadable,
}
use hybrid_databases.Persistence.Reading.Replay.{load_operation-ReadsAll, read_node_load-ReadsAll}
use hybrid_databases.Persistence.Reading.{read_node_load}
use hybrid_databases.Storage.Codes.{digits, length-digits}
use hybrid_databases.Persistence.Loads.{
  FileLoad, FileResult, both, loaded, finishing, root, load_operation, load_transaction, load_dump,
}
use hybrid_databases.Persistence.Loads.Loops.{while_in_array-ReadsAll}

-- One part of a file behind another
pub both-loaded :
    {A B : Type 0} (m : FileLoad A) (k : A → FileLoad B) (file : List ℕ) (S : Store) {a : A}
    {file1 : List ℕ} {S1 : Store} {r : FileResult B}
    → m file S ≡ loaded a file1 S1
    → k a file1 S1 ≡ r
    → both m k file S ≡ r
both-loaded m k file S e h = rw (both, e) h

-- A checksum is asked for only where there is one.
abbrev pub Suffices : Bool → Bool → Type 0
Suffices wanted checksum = (wanted && not checksum) ≡ false

-- A body that reads the whole element passes the end of the element.
pub finishing-Reads :
    {A : Type 0} {m : Load A} {x : Item} {a : A} {S S' : Store} (base : ℕ) (wanted checksum : Bool)
    (file : List ℕ)
    → Reads m x a S S'
    → Suffices wanted checksum
    → base + length (encode x) + 6 < 2 ^ 63
    → finishing wanted m (at base [] (encode x ++ trailer checksum (encode x)) 0) file S
      ≡ loaded a file S'
unfolding finishing
finishing-Reads {x} base wanted checksum file r s h =
    let bs = encode x in
    let body =
      ((r.loads [] 0).run base [] (trailer checksum bs)
        (omega (arith, trailer_bounds checksum bs, length-append bs (trailer checksum bs)))) in
    rw (finishing, body, reader_finish_lem base checksum wanted bs h, s) refl

-- A file of which the rest, wherever `reader_begin` puts its elements, lies in the lower half of
-- the address space.
abbrev pub Placed : (List ℕ → ℕ) → List ℕ → Type 0
Placed address file = (f : List ℕ) → length f ≤ length file → address f + length f < 2 ^ 62

pub length-root_bytes :
    (checksum : Bool) (bs file : List ℕ)
    → length (root_bytes checksum bs ++ file)
      ≡ 10 + (length bs + (length (trailer checksum bs) + length file))
length-root_bytes checksum bs file =
    let t = bs ++ trailer checksum bs in
    omega (
      arith,
      length-append (header (length t) ++ t) file,
      length-append (header (length t)) t,
      length-append bs (trailer checksum bs),
      length-header (length t),
    )

pub Placed-rest :
    (address : List ℕ → ℕ) (checksum : Bool) (bs file : List ℕ)
    → Placed address (root_bytes checksum bs ++ file)
    → Placed address file
Placed-rest address checksum bs file p f h = p f (omega (arith, length-root_bytes checksum bs file))

pub Placed-here :
    (address : List ℕ → ℕ) (checksum : Bool) (bs file : List ℕ)
    → Placed address (root_bytes checksum bs ++ file)
    → address (root_bytes checksum bs ++ file) + length bs + 6 < 2 ^ 63
Placed-here address checksum bs file p =
    let here = p (root_bytes checksum bs ++ file) (omega arith) in
    omega (arith, here, length-root_bytes checksum bs file)

pub root-Reads :
    {A : Type 0} {m : Load A} {x : Item} {a : A} {S S' : Store} (address : List ℕ → ℕ)
    (wanted checksum : Bool) (file : List ℕ)
    → Reads m x a S S'
    → Suffices wanted checksum
    → Placed address (root_bytes checksum (encode x) ++ file)
    → root address wanted m (root_bytes checksum (encode x) ++ file) S ≡ loaded a file S'
unfolding root
root-Reads {x} address wanted checksum file r s p =
    let bs = encode x in
    let base = address (root_bytes checksum bs ++ file) in
    let h = Placed-here address checksum bs file p in
    let begin = reader_begin_lem base checksum bs file (omega arith) in
    rw (root, begin, begin) (finishing-Reads base wanted checksum file r s h)

module _ (D : DatabaseType) (first_file dump_on : Bool) (S : Store) where
  -- A regular transaction with an operation at least
  pub commit-ReadsAll :
      (op : Operation) (ops : List Operation)
      → AreLegal D S (op ∷ ops)
      → ReadsAll
          (array_end ∷ [])
          (load_transaction D first_file dump_on)
          (arrays operation_parts (op ∷ ops))
          tt
          S
          (apply_all D (op ∷ ops) S)
  unfolding load_transaction r_next ◌>>=◌ reader_next encode encode_items
  commit-ReadsAll op ops h =
      let all =
        while_in_array-ReadsAll (load_operation D) operation_parts (apply_operation D) (IsLegal D)
          (λ x S1 k. load_operation-ReadsAll D x S1 k) (op ∷ ops) S h in
      record {
        loads = λ d. record { run = λ base done more f. (all.loads d).run base done more f };
      }

-- A transaction of a dump. In the files behind the first one it is passed over.
abbrev pub dump_items : List Dumped → Items
dump_items ns = cons (num 0) (arrays dumped_parts ns)

abbrev pub load_all : Bool → List Dumped → Store → Store
load_all true ns S = changes load_dumped ns S
load_all false ns S = S

abbrev pub AreLoadable : DatabaseType → Bool → Store → List Dumped → Type 0
AreLoadable D true S ns = ArePossible load_dumped (IsLoadable D) S ns
AreLoadable D false S ns = Unit

dumped_reads :
    (D : DatabaseType) (first_file : Bool) (S : Store) (ns : List Dumped)
    → AreLoadable D first_file S ns
    → ReadsAll
        (array_end ∷ [])
        (load_dump D first_file true)
        (dump_items ns)
        tt
        S
        (load_all first_file ns S)
unfolding load_dump
dumped_reads D true S ns h = ReadsAll-bind _ (Reads-check_number 0 S (omega arith)) (
    ReadsAll-first (ensure true) _ (λ R. refl)
      (while_in_array-ReadsAll (read_node_load D) dumped_parts load_dumped (IsLoadable D)
        (λ x S1 k. read_node_load-ReadsAll D x S1 k) ns S h))
dumped_reads D false S ns h =
    ReadsAll-bind _ (Reads-check_number 0 S (omega arith))
      (ReadsAll-first (ensure true) _ (λ R. refl) (ReadsAll-skip (arrays dumped_parts ns) S))

number_next :
    (base : ℕ) (done more : List ℕ) (d n : ℕ)
    → reader_next (at base done (encode (num n) ++ more) d) ≡ string_mark
unfolding encode
number_next base done more d n =
    reader_next_string base done d (digits n) more (omega (arith, length-digits n))

pub dump-ReadsAll :
    (D : DatabaseType) (first_file : Bool) (S : Store) (ns : List Dumped)
    → AreLoadable D first_file S ns
    → ReadsAll
        (array_end ∷ [])
        (load_transaction D first_file true)
        (dump_items ns)
        tt
        S
        (load_all first_file ns S)
unfolding load_transaction r_next ◌>>=◌ encode_items
dump-ReadsAll D first_file S ns h =
    let all = dumped_reads D first_file S ns h in
    record {
      loads = λ d. record {
        run = λ base done more f.
            let rest = encode_items (arrays dumped_parts ns) in
            let split : (encode (num 0) ++ rest) ++ array_end ∷ more
                ≡ encode (num 0) ++ (rest ++ array_end ∷ more) =
              append_assoc (encode (num 0)) rest (array_end ∷ more) in
            let next = number_next base done (rest ++ array_end ∷ more) d 0 in
            rw (split, next) (rw (← split) ((all.loads d).run base done more f));
      };
    }
