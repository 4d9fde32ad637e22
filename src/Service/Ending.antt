-- ===== src/Service/Ending.antt =====
-- The end of the service thread: the dump that still runs is finished, and the writer is emptied.
use hybrid_databases.Base.{ℕ, ◌≡◌, Option, none, some, List, [], ◌++◌}
use hybrid_databases.Storage.Writer.{Writer}
use hybrid_databases.Persistence.DataFile.{opened}
use hybrid_databases.Service.{Service}
use hybrid_databases.Service.Dumps.{IsReady}

-- A step as `Advances`, behind which no dump runs
abbrev pub Quiet : Service → Option Service → Type 0
Quiet S o = (S' : Service) × (o ≡ some S') × IsReady S' × (S'.posted ≡ S.posted) × (S'.dump ≡ none)

-- What the service thread leaves, with the state `S1` behind its last dump: the bytes that the
-- writer held then are behind those of the file.
pub record IsStopped (S1 S : Service) : Type 0 where
  pub ready : IsReady S
  pub no_dump : S.dump ≡ none
  pub file : List ℕ
  pub before : S1.files.file_desc ≡ opened file
  pub after : S.files.file_desc ≡ opened (file ++ S1.writer.sealed)
  pub written : S.writer.sealed ≡ []
