-- ===== src/Persistence/Loads/DataFiles.antt =====
-- A data file as a list of entries, and what `load_file` makes of it.
use hybrid_databases.Base.{
  ℕ, suc, ◌+◌, ◌^◌, ◌<◌, ◌≡◌, ◌≢◌, refl, ◌∙◌, ap, subst, arith, Bool, true, false, List, [], ◌∷◌,
  ◌++◌, length, length-append, append_assoc,
}
use hybrid_databases.Storage.Format.{array_end, ReadStatus, read_success}
use hybrid_databases.Storage.Writer.{trailer}
use hybrid_databases.Storage.Writer.Bounds.{root_bytes, string_bytes}
use hybrid_databases.Storage.Reader.{Reader, reader_next}
use hybrid_databases.Storage.Reader.Lengths.{
  string_bytes_nonempty, at, reader_next_string, read_string-at,
}
use hybrid_databases.Storage.Frames.{reader_begin_lem}
use hybrid_databases.Storage.Items.{Item, Items, arr, str, encode}
use hybrid_databases.Persistence.Emitting.{arrays}
use hybrid_databases.Persistence.Schema.{DatabaseType, dump_begin_mark, dump_end_mark}
use hybrid_databases.Persistence.Loading.{Store, ◌>>=◌, r_string, r_check_string, same_bytes}
use hybrid_databases.Persistence.Loading.Reading.{ReadsAll, Reads-array, Reads-check_string}
use hybrid_databases.Persistence.Operations.{
  Operation, operation_parts, apply_all, AreLegal, Dumped,
}
use hybrid_databases.Persistence.Loads.{
  Loaded, failed, finishing, load_loop, load_root, load_mark, load_transaction,
}
use hybrid_databases.Persistence.Loads.Transactions.{
  Placed, Placed-rest, Placed-here, finishing-Reads, commit-ReadsAll, dump-ReadsAll, dump_items,
  load_all, AreLoadable,
}

-- A root element of a data file behind its header: a transaction, or a part of a dump.
pub data Entry : Type 0 where
  commit : List Operation → Entry
  dump_begin : Entry
  dump : List Dumped → Entry
  dump_end : Entry

abbrev pub entry_item : Entry → Item
entry_item (commit ops) = arr (arrays operation_parts ops)
entry_item dump_begin = str dump_begin_mark
entry_item (dump ns) = arr (dump_items ns)
entry_item dump_end = str dump_end_mark

-- Transactions have a checksum, marks have none.
abbrev pub has_checksum : Entry → Bool
has_checksum (commit ops) = true
has_checksum dump_begin = false
has_checksum (dump ns) = true
has_checksum dump_end = false

abbrev pub entry_bytes : Entry → List ℕ
entry_bytes e = root_bytes (has_checksum e) (encode (entry_item e))

abbrev pub all_bytes : List Entry → List ℕ
all_bytes [] = []
all_bytes (e ∷ es) = entry_bytes e ++ all_bytes es

-- Whether a dump is going on behind the entry, and the nodes there
abbrev pub dump_after : Bool → Entry → Bool
dump_after on (commit ops) = on
dump_after on dump_begin = true
dump_after on (dump ns) = on
dump_after on dump_end = false

abbrev pub load_entry : DatabaseType → Bool → Entry → Store → Store
load_entry D first (commit ops) S = apply_all D ops S
load_entry D first dump_begin S = S
load_entry D first (dump ns) S = load_all first ns S
load_entry D first dump_end S = S

-- The entry can stand where it does: a transaction changes a node at least, and a dump is going on
-- where it has to.
abbrev pub IsValid : DatabaseType → Bool → Bool → Store → Entry → Type 0
IsValid D first on S (commit ops) = (ops ≢ []) × AreLegal D S ops
IsValid D first on S dump_begin = on ≡ false
IsValid D first on S (dump ns) = (on ≡ true) × AreLoadable D first S ns
IsValid D first on S dump_end = on ≡ true

begin_end : same_bytes dump_begin_mark dump_end_mark ≡ false
unfolding same_bytes dump_begin_mark dump_end_mark
begin_end = refl

-- `rCheckString` of another string
pub check_fails :
    (base : ℕ) (s t : List ℕ) (file : List ℕ) (S : Store)
    → same_bytes s t ≡ false
    → base + length (encode (str t)) + 6 < 2 ^ 63
    → finishing false
        (r_check_string s)
        (at base [] (encode (str t) ++ trailer false (encode (str t))) 0)
        file
        S
      ≡ failed S
unfolding finishing r_check_string ◌>>=◌ r_string encode
check_fails base s t file S e h =
    let read =
      read_string-at base [] 0 t (trailer false (encode (str t)))
        (omega (arith, length-append (string_bytes t) (trailer false (encode (str t))))) in
    rw (finishing, read, e) refl

-- What `reader_begin` gives for an entry
abbrev begun : ℕ → Entry → List ℕ → ReadStatus Reader × List ℕ
begun base e file =
    let bs = encode (entry_item e) in
    (read_success (at base [] (bs ++ trailer (has_checksum e) bs) 0), file)

module _ (address : List ℕ → ℕ) (D : DatabaseType) (first : Bool)
    (k : Bool → List ℕ → Store → Loaded) (base : ℕ) (file : List ℕ) (S : Store) where
  array_reads :
      (on : Bool) {xs : Items} {S' : Store}
      → ReadsAll (array_end ∷ []) (load_transaction D first on) xs tt S S'
      → base + length (encode (arr xs)) + 6 < 2 ^ 63
      → load_root address D first on k
          (read_success (at base [] (encode (arr xs) ++ trailer true (encode (arr xs))) 0), file)
          S
        ≡ k on file S'
  unfolding load_root reader_next encode
  array_reads on r p = rw (finishing-Reads base true true file (Reads-array r) refl p) refl

  pub mark_reads :
      (on : Bool) (s : List ℕ)
      → base + length (encode (str s)) + 6 < 2 ^ 63
      → let R = at base [] (encode (str s) ++ trailer false (encode (str s))) 0 in
        load_root address D first on k (read_success R, file) S ≡ load_mark address on R file S k
  unfolding load_root encode
  mark_reads on s p =
      let size = string_bytes_nonempty s in
      let next = reader_next_string base [] 0 s (trailer false (encode (str s))) (omega arith) in
      rw (next, load_root) refl

  dump_begin_reads :
      (on : Bool)
      → base + length (encode (str dump_begin_mark)) + 6 < 2 ^ 63
      → let R =
          at base []
            (encode (str dump_begin_mark) ++ trailer false (encode (str dump_begin_mark)))
            0 in
        on ≡ false → load_mark address on R file S k ≡ k true file S
  unfolding load_mark
  dump_begin_reads on p h =
      let f = finishing-Reads base false false file (Reads-check_string dump_begin_mark S) refl p in
      rw (f, h) refl

  dump_end_reads :
      (on : Bool)
      → base + length (encode (str dump_end_mark)) + 6 < 2 ^ 63
      → let R =
          at base [] (encode (str dump_end_mark) ++ trailer false (encode (str dump_end_mark))) 0 in
        on ≡ true → load_mark address on R file S k ≡ k false file S
  unfolding load_mark
  dump_end_reads on p h =
      let f = finishing-Reads base false false file (Reads-check_string dump_end_mark S) refl p in
      let other = check_fails base dump_begin_mark dump_end_mark file S begin_end p in
      rw (other, f, h) refl

  pub root_reads :
      (on : Bool) (e : Entry)
      → IsValid D first on S e
      → base + length (encode (entry_item e)) + 6 < 2 ^ 63
      → load_root address D first on k (begun base e file) S
        ≡ k (dump_after on e) file (load_entry D first e S)
  root_reads on (commit []) (h, l) p = absurd (h refl)
  root_reads on (commit (op ∷ ops)) (h, l) p =
      array_reads on (commit-ReadsAll D first on S op ops l) p
  root_reads on dump_begin h p = mark_reads on dump_begin_mark p ∙ dump_begin_reads on p h
  root_reads on (dump ns) (h, l) p = rw h (array_reads true (dump-ReadsAll D first S ns l) p)
  root_reads on dump_end h p = mark_reads on dump_end_mark p ∙ dump_end_reads on p h

-- The state of a load behind a list of entries, and the entries that can stand there.
abbrev pub dump_behind : Bool → List Entry → Bool
dump_behind on [] = on
dump_behind on (e ∷ es) = dump_behind (dump_after on e) es

abbrev pub load_entries : DatabaseType → Bool → List Entry → Store → Store
load_entries D first [] S = S
load_entries D first (e ∷ es) S = load_entries D first es (load_entry D first e S)

abbrev pub AreValid : DatabaseType → Bool → Bool → Store → List Entry → Type 0
AreValid D first on S [] = Unit
AreValid D first on S (e ∷ es) =
    IsValid D first on S e × AreValid D first (dump_after on e) (load_entry D first e S) es

-- The loop reads the entries one by one.
pub load_loop-entries :
    (address : List ℕ → ℕ) (D : DatabaseType) (first : Bool) (es : List Entry) (tail : List ℕ)
    (fuel rest : ℕ) (on : Bool) (S : Store)
    → fuel ≡ length es + rest
    → AreValid D first on S es
    → Placed address (all_bytes es ++ tail)
    → load_loop address fuel D first on (all_bytes es ++ tail) S
      ≡ load_loop address rest D first (dump_behind on es) tail (load_entries D first es S)
unfolding load_loop
load_loop-entries address D first [] tail fuel rest on S e v p =
    let same : fuel ≡ rest = omega arith in rw same refl
load_loop-entries address D first (x ∷ es) tail fuel rest on S e v p =
    let more = all_bytes es ++ tail in
    let split : (entry_bytes x ++ all_bytes es) ++ tail ≡ entry_bytes x ++ more =
      append_assoc (entry_bytes x) (all_bytes es) tail in
    let round : fuel ≡ suc (length es + rest) = omega arith in
    let bs = encode (entry_item x) in
    let placed : Placed address (entry_bytes x ++ more) = subst (Placed address) split p in
    let here = Placed-here address (has_checksum x) bs more placed in
    let later = Placed-rest address (has_checksum x) bs more placed in
    let base = address (entry_bytes x ++ more) in
    let begin = reader_begin_lem base (has_checksum x) bs more (omega arith) in
    let k = λ (dump : Bool) (f : List ℕ) (S1 : Store).
      load_loop address (length es + rest) D first dump f S1 in
    ap (λ (f : List ℕ). load_loop address fuel D first on f S) split
    ∙ rw round (ap (λ (b : ReadStatus Reader × List ℕ). load_root address D first on k b S) begin)
    ∙ root_reads address D first k base more S on x v.0 here
    ∙ load_loop-entries address D first es tail (length es + rest) rest (dump_after on x)
        (load_entry D first x S) refl v.1 later
