-- ===== src/Service.antt =====
-- `service_thread` and `do_dump` of database.include/threads.c, with SIMPLE_SERVICE_THREAD and
-- DB_DEFER_DEALLOC: what becomes of the jobs of the output queue.
pub mod Dumps
pub mod Progress
pub mod Ending
pub mod Queue
use hybrid_databases.Base.{
  ℕ, zero, suc, ◌+◌, Bool, true, false, Option, none, some, List, [], ◌∷◌, ◌++◌, length,
}
use hybrid_databases.Base.Options.{◌>>=◌}
use hybrid_databases.Storage.Writer.{Writer, write_number, writer_finish}
use hybrid_databases.Persistence.Emitting.{w_array}
use hybrid_databases.Persistence.Attributes.{AttributeType, Value}
use hybrid_databases.Persistence.Schema.{DatabaseType}
use hybrid_databases.Persistence.Writing.{write_node_store, write_dump_end}
use hybrid_databases.Persistence.Log.{Garbage, buffered_write, buffered_sync}
use hybrid_databases.Persistence.DataFile.{
  Descriptor, no_file, opened, stale, Files, database_new_file,
}

-- A node that a dump comes to: the index of its type, its id, and its attributes with their types
pub record StoredNode : Type 0 where
  pub type : ℕ
  pub id : ℕ
  pub types : List AttributeType
  pub values : List Value

-- `struct OutputList` by its type. A commit has the bytes of its writer, its garbage and its lock;
-- for a new file or a dump the job tells whether the file can be opened and which magic number is
-- generated, and for a dump the nodes that the allocators will hand out.
pub data Job : Type 0 where
  commit : (sync : Bool) (bytes : List ℕ) (garbage : List Garbage) (lock : Option ℕ) → Job
  sync_me : (lock : Option ℕ) → Job
  create_new_file : (opens : Bool) (magic_nr lock : ℕ) → Job
  start_dump : (opens : Bool) (magic_nr lock : ℕ) (nodes : List StoredNode) → Job
  collect_garbage : Job
  pause : Job

-- `*job->answer`
pub data Answer : Type 0 where
  success : Answer
  error_dump_running : Answer
  error_cannot_create_new_file : Answer

-- The variables of `service_thread`, the files, and what other threads see of it: the semaphores
-- posted, the answers given and the garbage freed, all in order. `dump` holds the nodes that a
-- running dump has before it.
pub record Service : Type 0 where
  pub writer : Writer
  pub files : Files
  pub dump : Option (List StoredNode)
  pub posted : List ℕ
  pub answers : List Answer
  pub freed : List Garbage

-- A write to `D->file_desc`. On a descriptor that is not open it ends the program.
unfoldable pub on_file : (Writer × List ℕ → Option (Writer × List ℕ)) → Service → Option Service
on_file f S = elim S.files.file_desc [
  | no_file ↦ none
  | stale ↦ none
  | opened file ↦ (do
    (W, file1) ← f (S.writer, file)
    some (record S { writer = W; files = record S.files { file_desc = opened file1 } }))
]

-- `if (job->lock) sem_post(job->lock)`
unfoldable pub post : Option ℕ → Service → Service
post none S = S
post (some lock) S = record S { posted = S.posted ++ lock ∷ [] }

-- A transaction of the dump, and the flush behind it
unfoldable pub dump_node : StoredNode → Writer × List ℕ → Option (Writer × List ℕ)
dump_node n (W, file) = do
  W1 ← w_array (λ V. do V1 ← write_number V 0; write_node_store n.type n.id n.types n.values V1) W
  W2 ← writer_finish W1 true
  buffered_write [] (W2, file)

unfoldable pub dump_finish : Writer × List ℕ → Option (Writer × List ℕ)
dump_finish (W, file) = do W1 ← write_dump_end W; buffered_sync (W1, file)

-- `do_dump`, where `count` nodes are written before it finds a job waiting behind a batch; it
-- finishes if there are no more. A collision with a transaction only delays a node.
unfoldable pub do_dump : ℕ → List StoredNode → Service → Option Service
unfolding dump_node dump_finish on_file
do_dump zero nodes S = some (record S { dump = some nodes })
do_dump (suc count) [] S = do S1 ← on_file dump_finish S; some (record S1 { dump = none })
do_dump (suc count) (n ∷ nodes) S = do S1 ← on_file (dump_node n) S; do_dump count nodes S1

-- `while (!do_dump(...))`: a round more than there are nodes
unfoldable pub finish_dump : List StoredNode → Service → Option Service
unfolding do_dump
finish_dump nodes S = do_dump (suc (length nodes)) nodes S

abbrev answer_of : Bool → Answer
answer_of true = success
answer_of false = error_cannot_create_new_file

-- What a synchronous commit adds
unfoldable pub sync_if : Bool → Service → Option Service
unfolding on_file
sync_if true S = on_file buffered_sync S
sync_if false S = some S

-- The branches of the two `switch`es. `opens` failing leaves a descriptor that is closed. The waits
-- are left out: for a commit to be ready (with FAST_COMMIT), and for the end of a pause.
unfoldable pub handle_job : DatabaseType → Job → Service → Option Service
unfolding on_file post sync_if
handle_job D (commit sync bytes garbage lock) S = do
  S1 ← on_file (buffered_write bytes) S
  let S2 = record S1 { freed = S1.freed ++ garbage }
  S3 ← sync_if sync S2
  some (post lock S3)
handle_job D (sync_me lock) S = do S1 ← on_file buffered_sync S; some (post lock S1)
handle_job D (create_new_file opens magic_nr lock) S = do
  S1 ← on_file buffered_sync S
  elim S1.dump [
    | some nodes ↦
        some (post (some lock) (record S1 { answers = S1.answers ++ error_dump_running ∷ [] }))
    | none ↦ (do
      (created, F) ← database_new_file D opens false magic_nr S1.files
      some (
          post (some lock)
            (record S1 { files = F; answers = S1.answers ++ answer_of created ∷ [] })))
  ]
handle_job D (start_dump opens magic_nr lock nodes) S = do
  S1 ← on_file buffered_sync S
  elim S1.dump [
    | some others ↦
        some (post (some lock) (record S1 { answers = S1.answers ++ error_dump_running ∷ [] }))
    | none ↦ (do
      (created, F) ← database_new_file D opens true magic_nr S1.files
      elim created [
        | true ↦ some (
            post (some lock)
              (record S1 { files = F; dump = some nodes; answers = S1.answers ++ success ∷ [] }))
        | false ↦ some (
            post (some lock)
              (record S1 { files = F; answers = S1.answers ++ error_cannot_create_new_file ∷ [] }))
      ])
  ]
handle_job D collect_garbage S = some S
handle_job D pause S = some S

-- `resume`: a running dump goes on.
unfoldable pub resume_if : Option (List StoredNode) → ℕ → Service → Option Service
unfolding do_dump
resume_if none count S = some S
resume_if (some nodes) count S = do_dump count nodes S

unfoldable pub resume : ℕ → Service → Option Service
unfolding resume_if
resume count S = resume_if S.dump count S

-- The loop over the queue; each job comes with what `do_dump` gets to behind it.
unfoldable pub serve : DatabaseType → List (Job × ℕ) → Service → Option Service
unfolding handle_job resume
serve D [] S = some S
serve D ((job, count) ∷ jobs) S = do S1 ← handle_job D job S; S2 ← resume count S1; serve D jobs S2

unfoldable pub finish_if : Option (List StoredNode) → Service → Option Service
unfolding finish_dump
finish_if none S = some S
finish_if (some nodes) S = finish_dump nodes S

-- Behind the last job a running dump is finished, and the writer is emptied.
unfoldable pub stop : Service → Option Service
unfolding finish_if on_file
stop S = do S1 ← finish_if S.dump S; on_file buffered_sync S1

-- `service_thread`, from behind the first `sem_wait`
unfoldable pub service_thread : DatabaseType → List (Job × ℕ) → Service → Option Service
unfolding serve stop
service_thread D jobs S = do S1 ← serve D jobs S; stop S1
