-- ===== src/Persistence/DataFile.antt =====
-- How data files come about: `_database_new_file` of database.include/database.c, the first file
-- that `load_data` of database_create.c makes, and the commits that `service_thread` of threads.c
-- writes behind it.
pub mod Pieces
pub mod Created
pub mod Recovery
pub mod MemoryCommits
pub mod SchemaFile
use hybrid_databases.Base.{
  ℕ, ◌+◌, Bool, true, false, Option, none, some, List, [], ◌∷◌, ◌++◌, if◌then◌else◌,
}
use hybrid_databases.Base.Options.{◌>>=◌}
use hybrid_databases.Storage.Writer.{Writer, writer_init, writer_output, writer_discart}
use hybrid_databases.Persistence.Schema.{DatabaseType}
use hybrid_databases.Persistence.Writing.{
  write_file_header, write_file_footer, write_dump_begin, write_dump_end,
}
use hybrid_databases.Persistence.Log.{LogItem, process_transaction_log, buffered_write}

-- `D->file_desc`: -1, a file with its contents, or a descriptor that was closed.
pub data Descriptor : Type 0 where
  no_file : Descriptor
  opened : List ℕ → Descriptor
  stale : Descriptor

-- The files of the database: those that were closed, the last first, and the current one.
pub record Files : Type 0 where
  pub read_only : Bool
  pub current_file_index : ℕ
  pub closed_files : List (List ℕ)
  pub file_desc : Descriptor

-- The current file is closed by a footer. `util_fd_write` and `close` end the program if they
-- fail, as they do on a descriptor that was closed before.
unfoldable pub close_current : ℕ → Files → Option (Writer × Files)
close_current magic_nr F = elim F.file_desc [
  | no_file ↦ some (writer_init, F)
  | opened file ↦ (do
    W ← write_file_footer magic_nr writer_init
    bytes ← writer_output W
    some (
      writer_discart W,
      record F { closed_files = (file ++ bytes) ∷ F.closed_files; file_desc = stale },
    ))
  | stale ↦ none
]

unfoldable pub opening_bytes : DatabaseType → Bool → ℕ → Writer → Option (List ℕ)
opening_bytes D dump_begin magic_nr W = do
  W1 ← write_file_header D magic_nr W
  W2 ← (if dump_begin then write_dump_begin W1 else some W1)
  writer_output W2

-- `_database_new_file`, where `opens` tells whether `open` makes the file. If it does not, the
-- descriptor stays that of the file that was closed.
unfoldable pub database_new_file : DatabaseType → Bool → Bool → ℕ → Files → Option (Bool × Files)
unfolding close_current opening_bytes
database_new_file D opens dump_begin magic_nr F = elim F.read_only [
  | true ↦ some (true, F)
  | false ↦ (do
    (W, F1) ← close_current magic_nr F
    let F2 = record F1 { current_file_index = F1.current_file_index + 1 }
    elim opens [
      | false ↦ some (false, F2)
      | true ↦ (do
        bytes ← opening_bytes D dump_begin magic_nr W
        some (true, record F2 { file_desc = opened bytes }))
    ])
]

-- The end of `load_data` where there is no data file yet: a new one, and the mark that ends its
-- dump.
unfoldable pub first_file : DatabaseType → Bool → Files → Option (Bool × Files)
unfolding database_new_file
first_file D opens F = do
  (created, F1) ← database_new_file D opens true 0 F
  elim created [
    | false ↦ some (false, F1)
    | true ↦ (do
      W ← write_dump_end writer_init
      bytes ← writer_output W
      elim F1.file_desc [
        | opened file ↦ some (true, record F1 { file_desc = opened (file ++ bytes) })
        | no_file ↦ none
        | stale ↦ none
      ])
  ]

-- A commit: the transaction's thread processes the log into the writer of the job, and the service
-- thread passes its bytes on. The writer of a job is used again behind `writer_discart`, so it is as
-- new but for its capacity.
unfoldable pub write_commit : List LogItem → Writer × List ℕ → Option (Writer × List ℕ)
write_commit log output = do
  (W, garbage, emptied) ← process_transaction_log log writer_init []
  bytes ← writer_output W
  buffered_write bytes output

unfoldable pub write_commits : List (List LogItem) → Writer × List ℕ → Option (Writer × List ℕ)
write_commits [] output = some output
write_commits (log ∷ logs) output = do output1 ← write_commit log output; write_commits logs output1
