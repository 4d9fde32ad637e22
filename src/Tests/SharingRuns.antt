-- ===== src/Tests/SharingRuns.antt =====
-- A run of two handles on one database (database.include/transaction.c).
use hybrid_databases.Base.{ℕ, ◌+◌, ◌*◌, ◌≡◌, ◌≢◌, refl, arith, [], ◌∷◌}
use hybrid_databases.Utils.Lock.{l_lock, lock_fails, l_check, l_unlock, cmpswp}
use hybrid_databases.Utils.Lock.Interleaving.{IsNaming}
use hybrid_databases.Transactions.Memory.{write_bytes, read_bytes}
use hybrid_databases.Transactions.State.{
  State, ct_async, util_lock, internal_write, memory_write, memory_read, tr_begin,
}
use hybrid_databases.Transactions.Commit.{
  tr_commit_main, tr_unlock, unlock_all, handle_cleanup, later, validate, effective, is_sync,
}
use hybrid_databases.Transactions.Sharing as Sharing
use hybrid_databases.Transactions.Sharing.{
  System, view, Works, wrote, has_read, begins, works, commits, answered, IsFresh, Reach, start,
}
use hybrid_databases.Transactions.Sharing.Serial.{
  memory_read-snapshot, IsSerial, tr_commit_main-IsSerial,
}

-- Every byte has its own lock.
abbrev guard : ℕ → ℕ
guard a = a

abbrev name : ℕ → ℕ
name i = 2 * i + 2

name-IsNaming : IsNaming name
name-IsNaming = record { even = λ i. omega arith; distinct = λ i j e. omega arith }

abbrev idle : ℕ → State
idle i = record {
  me = name i;
  start_time = 0;
  read_set = [];
  transactions = [];
  log = [];
  commit_type = ct_async;
  acquired_locks = [];
  time = 1;
  locks = λ l. 1;
  memory = λ a. 0;
  freed = [];
  queue = [];
}

abbrev made : System
made = record { shared = idle 0; handle = idle; committed = λ a. 0; snapshot = λ i a. 0 }

made-IsFresh : IsFresh name made
made-IsFresh = record {
  clock = refl;
  locks = λ l. refl;
  memory = λ a. refl;
  me = λ i. refl;
  idle = λ i. record {
    start_time = refl;
    read_set = refl;
    transactions = refl;
    log = refl;
    commit_type = refl;
    acquired_locks = refl;
  };
}

one_ne : ◌≢◌ {A = ℕ} 1 0
one_ne = λ e. omega arith

-- Both handles begin; handle 0 writes the byte 5 and commits; handle 1 reads 7 and writes 8.
abbrev run : (Z : System) × Reach guard name Z
unfolding l_lock lock_fails l_check l_unlock cmpswp write_bytes read_bytes util_lock internal_write
    memory_write memory_read tr_begin tr_commit_main tr_unlock unlock_all handle_cleanup later
    validate effective is_sync
run =
    let r = Sharing.later (Sharing.later (start made-IsFresh) (begins 0 refl)) (begins 1 refl) in
    let r1 = Sharing.later r (works 0 one_ne (wrote 5 5 (9 ∷ []) (λ k l. omega arith) refl)) in
    let r2 = Sharing.later r1 (commits 0 ct_async one_ne (omega arith)) in
    let r3 = Sharing.later r2 (works 1 one_ne (has_read 7 7 1 (0 ∷ []) refl)) in
    let r4 = Sharing.later r3 (works 1 one_ne (wrote 8 8 (4 ∷ []) (λ k l. omega arith) refl)) in
    (_, r4)

-- Handle 1 has has_begun before the commit; what it reads is from then.
memory_read-snapshot_example : 0 ∷ [] ≡ read_bytes 7 1 (run.0.snapshot 1)
unfolding l_lock lock_fails l_check l_unlock cmpswp write_bytes read_bytes util_lock internal_write
    memory_write memory_read tr_begin tr_commit_main tr_unlock unlock_all handle_cleanup later
    validate effective is_sync
memory_read-snapshot_example =
    memory_read-snapshot name-IsNaming run.1 1 (ground arith) 7 7 1 refl (λ k l. omega arith)
      (ground arith)

tr_commit_main-IsSerial_example :
    IsSerial guard name 1 run.0
      (answered guard name 1 (tr_commit_main ct_async (view 1 run.0)) run.0)
unfolding l_lock lock_fails l_check l_unlock cmpswp write_bytes read_bytes util_lock internal_write
    memory_write memory_read tr_begin tr_commit_main tr_unlock unlock_all handle_cleanup later
    validate effective is_sync
tr_commit_main-IsSerial_example =
    tr_commit_main-IsSerial 1 ct_async name-IsNaming run.1 (ground arith) (omega arith)
      (ground arith) refl
