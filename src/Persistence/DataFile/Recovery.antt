-- ===== src/Persistence/DataFile/Recovery.antt =====
-- What is committed is loaded again.
use hybrid_databases.Base.{
  ℕ, ◌^◌, ◌≤◌, ◌≡◌, ◌≢◌, refl, sym, ap, ◌∙◌, arith, true, false, some, List, [], ◌∷◌, ◌++◌, length,
  append-nil, append_assoc,
}
use hybrid_databases.Base.Options.{◌>>=◌}
use hybrid_databases.Storage.Items.{encode}
use hybrid_databases.Storage.Writer.{Writer, writer_init}
use hybrid_databases.Persistence.Schema.{DatabaseType}
use hybrid_databases.Persistence.Loading.{Store}
use hybrid_databases.Persistence.Operations.{apply_all, AreLegal}
use hybrid_databases.Persistence.Log.{LogItem, operations, buffered_sync}
use hybrid_databases.Persistence.Log.Emitted.{
  AreTyped, Sealed-IsIdle, log_item, process_transaction_log_lem,
}
use hybrid_databases.Persistence.Log.Buffering.{
  IsBuffer, Accepted, buffered_write_lem, buffered_sync_lem,
}
use hybrid_databases.Persistence.Loads.{load_unfinished_file, load_file}
use hybrid_databases.Persistence.Loads.Transactions.{Placed}
use hybrid_databases.Persistence.Loads.DataFiles.{
  Entry, commit, dump_begin, dump_end, entry_bytes, all_bytes, load_entries, AreValid,
}
use hybrid_databases.Persistence.Loads.WholeFiles.{
  start_bytes, header_bytes, data_file, left_open, load_file_lem,
}
use hybrid_databases.Persistence.DataFile.{write_commit, write_commits}
use hybrid_databases.Persistence.DataFile.Pieces.{writer_init-IsIdle, output_lem}
use hybrid_databases.Persistence.DataFile.Created.{header_bytes-append}

-- A log that a commit can leave: typed values, and 2 ^ 60 bytes at most.
abbrev pub IsWritable : List LogItem → Type 0
IsWritable log = AreTyped log × (length (encode (log_item (operations log))) ≤ 2 ^ 60)

abbrev pub AreWritable : List (List LogItem) → Type 0
AreWritable [] = Unit
AreWritable (log ∷ logs) = IsWritable log × AreWritable logs

abbrev pub commits : List (List LogItem) → List Entry
commits [] = []
commits (log ∷ logs) = commit (operations log) ∷ commits logs

write_commit-Accepted :
    {W : Writer} (log : List LogItem) (file : List ℕ)
    → IsBuffer W
    → IsWritable log
    → Accepted W file (entry_bytes (commit (operations log))) (write_commit log (W, file))
unfolding write_commit
write_commit-Accepted {W} log file b (typed, small) =
    let (W1, e, s) =
      process_transaction_log_lem log writer_init [] typed writer_init-IsIdle (omega arith) in
    rw (e, output_lem (Sealed-IsIdle s), s.sealed)
      (buffered_write_lem file b (entry_bytes (commit (operations log))))

write_commits-Accepted :
    (logs : List (List LogItem)) (W : Writer) (file : List ℕ)
    → IsBuffer W
    → AreWritable logs
    → Accepted W file (all_bytes (commits logs)) (write_commits logs (W, file))
unfolding write_commits
write_commits-Accepted [] W file b h = (W, file, refl, b, sym (append-nil (file ++ W.sealed)))
write_commits-Accepted (log ∷ logs) W file b h =
    let (W1, file1, e1, b1, s1) = write_commit-Accepted log file b h.0 in
    let (W2, file2, e2, b2, s2) = write_commits-Accepted logs W1 file1 b1 h.1 in
    (
      W2,
      file2,
      rw e1 e2,
      b2,
      s2
          ∙ rw s1 (
              append_assoc (file ++ W.sealed) (entry_bytes (commit (operations log)))
                (all_bytes (commits logs))),
    )

-- The transactions as they were made: each changes a node at least.
abbrev pub AreCommits : DatabaseType → Store → List (List LogItem) → Type 0
AreCommits D S [] = Unit
AreCommits D S (log ∷ logs) =
    (operations log ≢ [])
    × AreLegal D S (operations log)
    × AreCommits D (apply_all D (operations log) S) logs

-- What they do, one after the other
abbrev pub effects : DatabaseType → List (List LogItem) → Store → Store
effects D [] S = S
effects D (log ∷ logs) S = effects D logs (apply_all D (operations log) S)

pub commits-AreValid :
    (D : DatabaseType) (logs : List (List LogItem)) (S : Store)
    → AreCommits D S logs
    → AreValid D true false S (commits logs)
commits-AreValid D [] S h = tt
commits-AreValid D (log ∷ logs) S (changed, legal, later) =
    ((changed, legal), commits-AreValid D logs (apply_all D (operations log) S) later)

pub commits-effects :
    (D : DatabaseType) (logs : List (List LogItem)) (S : Store)
    → load_entries D true (commits logs) S ≡ effects D logs S
commits-effects D [] S = refl
commits-effects D (log ∷ logs) S = commits-effects D logs (apply_all D (operations log) S)

-- The file of a database that made these commits.
abbrev pub committed_file : DatabaseType → List (List LogItem) → List ℕ
committed_file D logs = data_file D 0 true (dump_end ∷ commits logs) left_open

regroup : (e more : List ℕ) → ((e ++ []) ++ []) ++ more ≡ (e ++ more) ++ []
regroup e more = simp append-nil

committed_bytes :
    (D : DatabaseType) (logs : List (List LogItem))
    → data_file D 0 true (dump_end ∷ []) left_open ++ all_bytes (commits logs)
      ≡ committed_file D logs
committed_bytes D logs =
    let more = all_bytes (commits logs) in
    let e = entry_bytes dump_end in
    header_bytes-append D 0 (start_bytes true ((e ++ []) ++ [])) more
    ∙ ap (λ (t : List ℕ). header_bytes D 0 t)
        (append_assoc (entry_bytes dump_begin) ((e ++ []) ++ []) more
          ∙ ap (λ (t : List ℕ). entry_bytes dump_begin ++ t) (regroup e more))

-- Behind the empty dump of the first file, with the writer empty
pub commits_written :
    (D : DatabaseType) (logs : List (List LogItem))
    → AreWritable logs
    → (W : Writer) × ((do
      output ← write_commits logs (writer_init, data_file D 0 true (dump_end ∷ []) left_open)
      buffered_sync output)
        ≡ some (W, committed_file D logs))
commits_written D logs writable =
    let first = data_file D 0 true (dump_end ∷ []) left_open in
    let empty : IsBuffer writer_init = record { idle = writer_init-IsIdle; limit = omega arith } in
    let (W1, file1, e1, b1, s1) = write_commits-Accepted logs writer_init first empty writable in
    let (W2, e2, b2, s2) = buffered_sync_lem b1.idle file1 in
    let bytes : file1 ++ W1.sealed ≡ committed_file D logs =
      s1
      ∙ ap (λ (t : List ℕ). t ++ all_bytes (commits logs)) (append-nil first)
      ∙ committed_bytes D logs in
    (W2, rw (e1, e2, bytes) refl)

-- Recovery. Behind the empty dump of a database's first file, with the service thread's writer
-- empty, any commits are written, each of which creates, changes or deletes a node, whose logs have
-- typed values and take 2 ^ 60 bytes each at most, create nodes of known types, and change a node
-- that is there by an attribute that it has only, with ids below 2 ^ 64 and attributes' numbers
-- below 2 ^ 31. Writing them and a synchronisation succeed; and wherever `reader_begin` puts the elements below 2 ^ 62, `load_file` of what is then in the file,
-- from any nodes `S`, finds that it was not closed, and gives the nodes that the operations of all
-- transactions make of `S` in their order, an empty string being loaded as a null pointer.
pub recovery :
    (address : List ℕ → ℕ) (D : DatabaseType) (S : Store) (logs : List (List LogItem))
    → AreWritable logs
    → AreCommits D S logs
    → Placed address (committed_file D logs)
    → (W : Writer) × (file : List ℕ) × ((do
      output ← write_commits logs (writer_init, data_file D 0 true (dump_end ∷ []) left_open)
      buffered_sync output)
        ≡ some (W, file))
      × (load_file address D 0 true file S ≡ load_unfinished_file (effects D logs S))
recovery address D S logs writable commits_ok placed =
    let (W, written) = commits_written D logs writable in
    let valid : AreValid D true true S (dump_end ∷ commits logs) =
      (refl, commits-AreValid D logs S commits_ok) in
    (
      W,
      committed_file D logs,
      written,
      load_file_lem address D S (dump_end ∷ commits logs) left_open true 0 0 tt (omega arith) refl
            valid placed
          ∙ ap (λ (T : Store). load_unfinished_file T) (commits-effects D logs S),
    )
