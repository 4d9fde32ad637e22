-- ===== src/Tests/ServiceRuns.antt =====
-- A queue with commits, a dump and a new file.
use hybrid_databases.Base.{ℕ, true, false, none, some, List, [], ◌∷◌}
use hybrid_databases.Storage.Writer.{writer_init}
use hybrid_databases.Persistence.Attributes.{uint8, number}
use hybrid_databases.Persistence.Schema.{DatabaseType}
use hybrid_databases.Persistence.DataFile.{opened}
use hybrid_databases.Service.{
  StoredNode, Job, commit, sync_me, create_new_file, start_dump, Service,
}

abbrev unnamed : DatabaseType
unnamed = record { name = 65 ∷ []; version = 49 ∷ []; node_types = [] }

abbrev waiting : Service
waiting = record {
  writer = writer_init;
  files = record {
    read_only = false;
    current_file_index = 1;
    closed_files = [];
    file_desc = opened [];
  };
  dump = none;
  posted = [];
  answers = [];
  freed = [];
}

abbrev dumped_node : StoredNode
dumped_node = record { type = 0; id = 2; types = uint8 ∷ []; values = number 7 ∷ [] }

abbrev queue : List (Job × ℕ)
queue =
    (commit true (1 ∷ 2 ∷ []) [] (some 3), 0)
    ∷ (start_dump true 5 4 (dumped_node ∷ []), 1)
    ∷ (create_new_file true 6 7, 5)
    ∷ (sync_me none, 0)
    ∷ []
