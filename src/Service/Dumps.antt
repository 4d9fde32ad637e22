-- ===== src/Service/Dumps.antt =====
-- A dump of the service thread, and its steps on the file.
use hybrid_databases.Base.{
  ℕ, zero, suc, ◌^◌, ◌≤◌, ◌≡◌, refl, sym, arith, true, false, Option, none, some, List, [], ◌∷◌,
  ◌++◌, length, append-nil,
}
use hybrid_databases.Base.Options.{◌>>=◌, >>=-eq-some}
use hybrid_databases.Storage.Items.{Item, arr, nil, cons, encode}
use hybrid_databases.Storage.Writer.{Writer, write_number, writer_finish}
use hybrid_databases.Persistence.Emitting.{
  w_array, Writes-string, num, Writes, Writes-array, Writes-number, WritesAll-cons, WritesAll-last,
}
use hybrid_databases.Persistence.Attributes.Storing.{
  HaveTypes, stored_all, store_attributes-WritesAll,
}
use hybrid_databases.Persistence.Schema.{dump_end_mark}
use hybrid_databases.Persistence.Writing.{write_node_store, write_dump_end}
use hybrid_databases.Persistence.Log.{buffered_write, buffered_sync}
use hybrid_databases.Persistence.Log.Buffering.{
  IsBuffer, buffered_write_lem, buffered_write-nil, buffered_sync_lem,
}
use hybrid_databases.Persistence.DataFile.{opened}
use hybrid_databases.Persistence.DataFile.Pieces.{element, dump_end_size}
use hybrid_databases.Service.{StoredNode, Service, on_file, dump_node, dump_finish, do_dump}

-- A node that fits in the file: its values have the types of its attributes.
abbrev pub dumped_item : StoredNode → Item
dumped_item n =
    arr (cons (num 0) (cons (arr (cons (num n.type) (cons (num n.id) (stored_all n.values)))) nil))

abbrev pub IsDumpable : StoredNode → Type 0
IsDumpable n = HaveTypes n.types n.values × (length (encode (dumped_item n)) ≤ 2 ^ 58)

abbrev pub AreDumpable : List StoredNode → Type 0
AreDumpable [] = Unit
AreDumpable (n ∷ nodes) = IsDumpable n × AreDumpable nodes

abbrev pub DumpIsReady : Option (List StoredNode) → Type 0
DumpIsReady none = Unit
DumpIsReady (some nodes) = AreDumpable nodes

-- The state between two jobs: the file is open for writing, the writer is between two elements and
-- within its limit, and the nodes before a dump can be written.
pub record IsReady (S : Service) : Type 0 where
  pub buffer : IsBuffer S.writer
  pub writable : S.files.read_only ≡ false
  pub file : (bytes : List ℕ) × (S.files.file_desc ≡ opened bytes)
  pub dump : DumpIsReady S.dump

-- A step that succeeds, leaves the state ready, and posts `locks`.
abbrev pub Advances : Service → List ℕ → Option Service → Type 0
Advances S locks o = (S' : Service) × (o ≡ some S') × IsReady S' × (S'.posted ≡ S.posted ++ locks)

-- A step on the file
abbrev pub FileStep : (Writer × List ℕ → Option (Writer × List ℕ)) → Writer → Type 0
FileStep f W =
    (file : List ℕ)
    → (W' : Writer) × (file' : List ℕ) × (f (W, file) ≡ some (W', file')) × IsBuffer W'

abbrev pub with_file : Service → Writer → List ℕ → Service
with_file S W file = record S { writer = W; files = record S.files { file_desc = opened file } }

pub on_file_lem :
    (f : Writer × List ℕ → Option (Writer × List ℕ)) (S : Service)
    → IsReady S
    → FileStep f S.writer
    → (W : Writer) × (file : List ℕ) × (on_file f S ≡ some (with_file S W file))
      × IsReady (with_file S W file)
unfolding on_file
on_file_lem f S r step =
    let (file, e) = r.file in
    let (W', file', q, b) = step file in
    (
      W',
      file',
      rw (e, q) refl,
      record { buffer = b; writable = r.writable; file = (file', refl); dump = r.dump },
    )

pub write_step : (bytes : List ℕ) {W : Writer} → IsBuffer W → FileStep (buffered_write bytes) W
write_step bytes b file =
    let (W', file', e, b', s) = buffered_write_lem file b bytes in (W', file', e, b')

pub sync_step : {W : Writer} → IsBuffer W → FileStep buffered_sync W
sync_step {W} b file =
    let (W', e, b', s) = buffered_sync_lem b.idle file in (W', file ++ W.sealed, e, b')

node_written :
    (n : StoredNode)
    → HaveTypes n.types n.values
    → Writes
        (w_array λ V. do V1 ← write_number V 0; write_node_store n.type n.id n.types n.values V1)
        (dumped_item n)
unfolding write_node_store
node_written n typed = Writes-array (
    WritesAll-cons (Writes-number 0) (
      WritesAll-last (
        Writes-array (
          WritesAll-cons (Writes-number n.type) (
            WritesAll-cons (Writes-number n.id)
              (store_attributes-WritesAll n.types n.values typed))))))

pub node_step : (n : StoredNode) {W : Writer} → IsBuffer W → IsDumpable n → FileStep (dump_node n) W
unfolding dump_node
node_step n {W} b (typed, small) file =
    let limit = b.limit in
    let (W2, e, idle, s) = element true (node_written n typed) b.idle (omega arith) in
    let (W1, e1, e2) = >>=-eq-some _ (λ V. writer_finish V true) e in
    let (W3, file3, e3, b3, s3) = buffered_write-nil idle file in (W3, file3, rw (e1, e2) e3, b3)

pub finish_step : {W : Writer} → IsBuffer W → FileStep dump_finish W
unfolding dump_finish write_dump_end
finish_step {W} b file =
    let limit = b.limit in
    let (W2, e, idle, s) =
      element false (Writes-string dump_end_mark) b.idle (omega (arith, dump_end_size)) in
    let (W3, e3, b3, s3) = buffered_sync_lem idle file in (W3, file ++ W2.sealed, rw e e3, b3)

pub do_dump-Advances :
    (count : ℕ) (nodes : List StoredNode) (S : Service)
    → IsReady S
    → AreDumpable nodes
    → Advances S [] (do_dump count nodes S)
unfolding do_dump
do_dump-Advances zero nodes S r h = (
  record S { dump = some nodes },
  refl,
  record { buffer = r.buffer; writable = r.writable; file = r.file; dump = h },
  sym (append-nil S.posted),
)
do_dump-Advances (suc count) [] S r h =
    let (W, file, e, r1) = on_file_lem dump_finish S r (finish_step r.buffer) in
    (
      record (with_file S W file) { dump = none },
      rw e refl,
      record { buffer = r1.buffer; writable = r1.writable; file = r1.file; dump = tt },
      sym (append-nil S.posted),
    )
do_dump-Advances (suc count) (n ∷ nodes) S r h =
    let (W, file, e, r1) = on_file_lem (dump_node n) S r (node_step n r.buffer h.0) in
    let (S2, e2, r2, p2) = do_dump-Advances count nodes (with_file S W file) r1 h.1 in
    (S2, rw e e2, r2, p2)
