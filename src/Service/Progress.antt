-- ===== src/Service/Progress.antt =====
-- The jobs of the service thread: each comes to its end and posts its semaphore.
use hybrid_databases.Base.{
  ℕ, ◌≡◌, refl, sym, subst, inl, inr, Option-cases, ◌∙◌, Bool, true, false, Option, none, some,
  List, [], ◌∷◌, ◌++◌, append-nil, append_assoc,
}
use hybrid_databases.Persistence.Schema.{DatabaseType}
use hybrid_databases.Persistence.Log.{buffered_write, buffered_sync}
use hybrid_databases.Persistence.DataFile.{opened, Files, database_new_file}
use hybrid_databases.Persistence.DataFile.Created.{IsSmall, opening, database_new_file_lem}
use hybrid_databases.Service.{
  resume_if, sync_if, StoredNode, Job, commit, sync_me, create_new_file, start_dump,
  collect_garbage, pause, Service, post, handle_job, resume, serve,
}
use hybrid_databases.Service.Dumps.{
  AreDumpable, DumpIsReady, IsReady, Advances, with_file, on_file_lem, write_step, sync_step,
  do_dump-Advances,
}

-- The semaphore that a job names
abbrev pub locks : Job → List ℕ
locks (commit sync bytes garbage none) = []
locks (commit sync bytes garbage (some lock)) = lock ∷ []
locks (sync_me none) = []
locks (sync_me (some lock)) = lock ∷ []
locks (create_new_file opens magic_nr lock) = lock ∷ []
locks (start_dump opens magic_nr lock nodes) = lock ∷ []
locks collect_garbage = []
locks pause = []

-- New files can be opened, and the nodes that a dump comes to can be written.
abbrev pub IsServable : Job → Type 0
IsServable (commit sync bytes garbage lock) = Unit
IsServable (sync_me lock) = Unit
IsServable (create_new_file opens magic_nr lock) = opens ≡ true
IsServable (start_dump opens magic_nr lock nodes) = (opens ≡ true) × AreDumpable nodes
IsServable collect_garbage = Unit
IsServable pause = Unit

sync_if-Advances : (sync : Bool) (S : Service) → IsReady S → Advances S [] (sync_if sync S)
unfolding sync_if
sync_if-Advances true S r =
    let (W, file, e, r1) = on_file_lem buffered_sync S r (sync_step r.buffer) in
    (with_file S W file, e, r1, sym (append-nil S.posted))
sync_if-Advances false S r = (S, refl, r, sym (append-nil S.posted))

module _ (D : DatabaseType) (small : IsSmall D) where
  new_file_ready :
      (begins : Bool) (magic : ℕ) (S : Service)
      → IsReady S
      → (F : Files) × (database_new_file D true begins magic S.files ≡ some (true, F))
        × (F.read_only ≡ false)
        × ((bytes : List ℕ) × (F.file_desc ≡ opened bytes))
  new_file_ready begins magic S r =
      let (file, e) = r.file in
      (
        _,
        database_new_file_lem D true begins magic S.files file small r.writable e,
        r.writable,
        (opening D begins magic, refl),
      )

  handle_job-Advances :
      (job : Job) (S : Service)
      → IsReady S
      → IsServable job
      → Advances S (locks job) (handle_job D job S)
  unfolding handle_job post
  handle_job-Advances (commit sync bytes garbage none) S r h =
      let (W, file, e, r1) = on_file_lem (buffered_write bytes) S r (write_step bytes r.buffer) in
      let S1 = record (with_file S W file) { freed = S.freed ++ garbage } in
      let r1' : IsReady S1 = record {
        buffer = r1.buffer;
        writable = r1.writable;
        file = r1.file;
        dump = r1.dump;
      } in
      let (S2, e2, r2, p2) = sync_if-Advances sync S1 r1' in (S2, rw (e, e2) refl, r2, p2)
  handle_job-Advances (commit sync bytes garbage (some lock)) S r h =
      let (W, file, e, r1) = on_file_lem (buffered_write bytes) S r (write_step bytes r.buffer) in
      let S1 = record (with_file S W file) { freed = S.freed ++ garbage } in
      let r1' : IsReady S1 = record {
        buffer = r1.buffer;
        writable = r1.writable;
        file = r1.file;
        dump = r1.dump;
      } in
      let (S2, e2, r2, p2) = sync_if-Advances sync S1 r1' in
      (
        record S2 { posted = S2.posted ++ lock ∷ [] },
        rw (e, e2) refl,
        record { buffer = r2.buffer; writable = r2.writable; file = r2.file; dump = r2.dump },
        rw (p2, append-nil) refl,
      )
  handle_job-Advances (sync_me none) S r h =
      let (W, file, e, r1) = on_file_lem buffered_sync S r (sync_step r.buffer) in
      (with_file S W file, rw e refl, r1, sym (append-nil S.posted))
  handle_job-Advances (sync_me (some lock)) S r h =
      let (W, file, e, r1) = on_file_lem buffered_sync S r (sync_step r.buffer) in
      (
        record (with_file S W file) { posted = S.posted ++ lock ∷ [] },
        rw e refl,
        record { buffer = r1.buffer; writable = r1.writable; file = r1.file; dump = r1.dump },
        refl,
      )
  handle_job-Advances (create_new_file false magic_nr lock) S r h = cc
  handle_job-Advances (create_new_file true magic_nr lock) S r h =
      let (W, file, e, r1) = on_file_lem buffered_sync S r (sync_step r.buffer) in
      let (F, q, writable, desc) = new_file_ready false magic_nr (with_file S W file) r1 in
      elim (Option-cases S.dump) [
        | inl idle ↦
            rw (e, idle, q)
              (
                _,
                refl,
                record { buffer = r1.buffer; writable = writable; file = desc; dump = tt },
                refl,
              )
        | inr (nodes, running) ↦
            rw (e, running)
              (
                _,
                refl,
                record {
                  buffer = r1.buffer;
                  writable = r1.writable;
                  file = r1.file;
                  dump = subst DumpIsReady running r1.dump;
                },
                refl,
              )
      ]
  handle_job-Advances (start_dump false magic_nr lock nodes) S r (h, dumpable) = cc
  handle_job-Advances (start_dump true magic_nr lock nodes) S r (h, dumpable) =
      let (W, file, e, r1) = on_file_lem buffered_sync S r (sync_step r.buffer) in
      let (F, q, writable, desc) = new_file_ready true magic_nr (with_file S W file) r1 in
      elim (Option-cases S.dump) [
        | inl idle ↦
            rw (e, idle, q)
              (
                _,
                refl,
                record { buffer = r1.buffer; writable = writable; file = desc; dump = dumpable },
                refl,
              )
        | inr (others, running) ↦
            rw (e, running)
              (
                _,
                refl,
                record {
                  buffer = r1.buffer;
                  writable = r1.writable;
                  file = r1.file;
                  dump = subst DumpIsReady running r1.dump;
                },
                refl,
              )
      ]
  handle_job-Advances collect_garbage S r h = (S, refl, r, sym (append-nil S.posted))
  handle_job-Advances pause S r h = (S, refl, r, sym (append-nil S.posted))

resume_if-Advances :
    (dump : Option (List StoredNode)) (count : ℕ) (S : Service)
    → IsReady S
    → DumpIsReady dump
    → Advances S [] (resume_if dump count S)
unfolding resume_if
resume_if-Advances none count S r h = (S, refl, r, sym (append-nil S.posted))
resume_if-Advances (some nodes) count S r h = do_dump-Advances count nodes S r h

abbrev pub all_locks : List (Job × ℕ) → List ℕ
all_locks [] = []
all_locks ((job, count) ∷ jobs) = locks job ++ all_locks jobs

abbrev pub AreServable : List (Job × ℕ) → Type 0
AreServable [] = Unit
AreServable ((job, count) ∷ jobs) = IsServable job × AreServable jobs

-- The queue is served to its end: each semaphore is posted, and the state is ready again.
pub serve-Advances :
    (D : DatabaseType) (jobs : List (Job × ℕ)) (S : Service)
    → IsSmall D
    → IsReady S
    → AreServable jobs
    → Advances S (all_locks jobs) (serve D jobs S)
unfolding serve resume
serve-Advances D [] S small r h = (S, refl, r, sym (append-nil S.posted))
serve-Advances D ((job, count) ∷ jobs) S small r h =
    let (S1, e1, r1, p1) = handle_job-Advances D small job S r h.0 in
    let (S2, e2, r2, p2) = resume_if-Advances S1.dump count S1 r1 r1.dump in
    let (S3, e3, r3, p3) = serve-Advances D jobs S2 small r2 h.1 in
    (S3, rw (e1, e2) e3, r3, p3 ∙ rw (p2, p1) (simp (append-nil, append_assoc)))
