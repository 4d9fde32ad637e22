-- ===== src/Persistence/DataFile/MemoryCommits.antt =====
-- A transaction that changes no node, written among those that do, as a load finds it.
use hybrid_databases.Base.{
  ℕ, ◌≡◌, refl, sym, ap, ◌∙◌, subst, arith, true, some, List, [], ◌∷◌, ◌++◌, append-nil,
  append_assoc,
}
use hybrid_databases.Base.Options.{◌>>=◌}
use hybrid_databases.Storage.Writer.{Writer, writer_init}
use hybrid_databases.Persistence.Schema.{DatabaseType}
use hybrid_databases.Persistence.Loading.{Store}
use hybrid_databases.Persistence.Operations.{Operation}
use hybrid_databases.Persistence.Log.{LogItem, operations, buffered_sync}
use hybrid_databases.Persistence.Loads.{load_corrupted_file, load_file}
use hybrid_databases.Persistence.Loads.Transactions.{Placed}
use hybrid_databases.Persistence.Loads.DataFiles.{
  commit, dump_begin, dump_end, entry_bytes, all_bytes, AreValid,
}
use hybrid_databases.Persistence.Loads.WholeFiles.{start_bytes, header_bytes, data_file, left_open}
use hybrid_databases.Persistence.Loads.EmptyCommits.{empty_commit-corrupts}
use hybrid_databases.Persistence.DataFile.{write_commits}
use hybrid_databases.Persistence.DataFile.Created.{header_bytes-append}
use hybrid_databases.Persistence.DataFile.Recovery.{
  AreWritable, AreCommits, commits, effects, committed_file, commits_written, commits-AreValid,
  commits-effects,
}

-- An element with an empty array behind commits
behind_commits :
    (address : List ℕ → ℕ) (D : DatabaseType) (S : Store) (logs : List (List LogItem))
    (log : List LogItem) (more : List ℕ)
    → AreCommits D S logs
    → operations log ≡ []
    → Placed address (
        header_bytes D 0 (
          start_bytes true (
            all_bytes (dump_end ∷ commits logs)
            ++ (entry_bytes (commit (operations log)) ++ more))))
    → load_file address D 0 true
        (header_bytes D 0 (
          start_bytes true (
            all_bytes (dump_end ∷ commits logs)
            ++ (entry_bytes (commit (operations log)) ++ more))))
        S
      ≡ load_corrupted_file (effects D logs S)
behind_commits address D S logs log more commits_ok nothing placed =
    let valid : AreValid D true true S (dump_end ∷ commits logs) =
      (refl, commits-AreValid D logs S commits_ok) in
    subst
      (λ (ops : List Operation).
        load_file address D 0 true
          (header_bytes D 0 (
            start_bytes true
              (all_bytes (dump_end ∷ commits logs) ++ (entry_bytes (commit ops) ++ more))))
          S
        ≡ load_corrupted_file (effects D logs S))
      (sym nothing)
      (empty_commit-corrupts address D S (dump_end ∷ commits logs) true 0 0 more (omega arith) refl
          valid
          (subst
            (λ (ops : List Operation). Placed address (
              header_bytes D 0 (
                start_bytes true
                  (all_bytes (dump_end ∷ commits logs) ++ (entry_bytes (commit ops) ++ more)))))
            nothing placed)
        ∙ ap (λ (T : Store). load_corrupted_file T) (commits-effects D logs S))

all_bytes-commits :
    (logs : List (List LogItem)) (log : List LogItem)
    → all_bytes (commits (logs ++ log ∷ []))
      ≡ all_bytes (commits logs) ++ entry_bytes (commit (operations log))
all_bytes-commits [] log = append-nil (entry_bytes (commit (operations log)))
all_bytes-commits (first ∷ logs) log = rw (all_bytes-commits logs log) (
    sym (
      append_assoc (entry_bytes (commit (operations first))) (all_bytes (commits logs))
        (entry_bytes (commit (operations log)))))

committed_file-more :
    (D : DatabaseType) (logs : List (List LogItem)) (log : List LogItem) (more : List ℕ)
    → committed_file D (logs ++ log ∷ []) ++ more
      ≡ header_bytes D 0 (
          start_bytes true (
            all_bytes (dump_end ∷ commits logs) ++ (entry_bytes (commit (operations log)) ++ more)))
committed_file-more D logs log more =
    let start = entry_bytes dump_begin in
    let e = entry_bytes dump_end in
    let all = all_bytes (commits logs) in
    let last = entry_bytes (commit (operations log)) in
    let inner : (start ++ ((e ++ (all ++ last)) ++ [])) ++ more
        ≡ start ++ ((e ++ all) ++ (last ++ more)) =
      simp (append-nil, append_assoc) in
    header_bytes-append D 0
      (start_bytes true (all_bytes (dump_end ∷ commits (logs ++ log ∷ [])) ++ [])) more
    ∙ ap (λ (t : List ℕ). header_bytes D 0 ((start ++ ((e ++ t) ++ [])) ++ more))
        (all_bytes-commits logs log)
    ∙ ap (λ (t : List ℕ). header_bytes D 0 t) inner

-- A transaction whose log changes no node -- it allocates, frees or writes memory only -- is
-- written too, and from then on the file is unreadable. Behind the empty dump of a database's first
-- file, with the writer empty, any commits are written, each of which creates, changes or deletes a
-- node, whose logs have typed values and take 2 ^ 60 bytes each at most, create nodes of known
-- types, and change a node that is there by an attribute that it has only, with ids below 2 ^ 64
-- and attributes' numbers below 2 ^ 31; and then such a transaction, with a log of that size. The
-- writing and a synchronisation succeed; and wherever `reader_begin` puts the elements below
-- 2 ^ 62, `load_file` of what is then in the file, with any bytes `more` behind it, reports a
-- corrupted file, with the nodes of the commits before that transaction only.
pub memory_commit-corrupts :
    (address : List ℕ → ℕ) (D : DatabaseType) (S : Store) (logs : List (List LogItem))
    (log : List LogItem) (more : List ℕ)
    → AreWritable (logs ++ log ∷ [])
    → AreCommits D S logs
    → operations log ≡ []
    → Placed address (committed_file D (logs ++ log ∷ []) ++ more)
    → (W : Writer) × (file : List ℕ) × ((do
      output ←
          write_commits
            (logs ++ log ∷ [])
            (writer_init, data_file D 0 true (dump_end ∷ []) left_open)
      buffered_sync output)
        ≡ some (W, file))
      × (load_file address D 0 true (file ++ more) S ≡ load_corrupted_file (effects D logs S))
memory_commit-corrupts address D S logs log more writable commits_ok nothing placed =
    let bytes = committed_file-more D logs log more in
    let (W, written) = commits_written D (logs ++ log ∷ []) writable in
    (
      W,
      committed_file D (logs ++ log ∷ []),
      written,
      ap (λ (f : List ℕ). load_file address D 0 true f S) bytes
          ∙ behind_commits address D S logs log more commits_ok nothing
              (subst (Placed address) bytes placed),
    )
