-- ===== src/Transactions/Locking.antt =====
-- The locks that a handle holds are those on its stack.
use hybrid_databases.Base.{
  ℕ, ◌≡◌, ◌≢◌, refl, sym, ap, ◌∙◌, arith, Bool, true, false, List, [], ◌∷◌, ◌==◌, ◌&&◌,
  if◌then◌else◌, subst,
}
use hybrid_databases.Utils.Lock.{l_lock, lock_fails, l_unlock, cmpswp}
use hybrid_databases.Transactions.State.{
  State, CommitType, util_lock, internal_write, internal_node_write, tr_memory_alloc,
  tr_memory_free, tr_begin, handle_rollback,
}
use hybrid_databases.Transactions.Commit.{unlock_all, tr_abort, tr_commit}
use hybrid_databases.Transactions.Runs.{
  Runs, done, wrote, node_wrote, has_read, allocated, released, ticked, committed, aborted, Extends,
  memory_write_inv, node_write_inv, memory_read_inv,
}
use hybrid_databases.Transactions.Rollback.{
  inside, tr_begin-inside, begin_busy, still_busy, Runs-Extends,
}

unfoldable pub has : ℕ → List ℕ → Bool
has x [] = false
has x (y ∷ ys) = if x == y then true else has x ys

-- Every lock that the handle owns is on its stack.
unfoldable pub Owned : State → Type 0
Owned S = (l : ℕ) → S.locks l ≡ S.me → has l S.acquired_locks ≡ true

-- Unlocking sets the version of the locks on the stack that are held, and of no other.
pub unlock_all_lem :
    (me ver : ℕ) (held : List ℕ) (locks : ℕ → ℕ) (l : ℕ)
    → unlock_all me ver held locks l ≡ (if has l held && (locks l == me) then ver else locks l)
unfolding unlock_all has l_unlock cmpswp
unlock_all_lem me ver [] locks l = refl
unlock_all_lem me ver (lock ∷ held) locks l = grind (
  arith,
  unlock_all_lem me ver held (λ x. if x == lock then (l_unlock (locks lock) me ver).0 else locks x)
      l,
)

pub util_lock-Owned : (lock : ℕ) (S : State) → Owned S → Owned (util_lock lock S).1
unfolding Owned util_lock has l_lock lock_fails
util_lock-Owned lock S o l h = grind (arith, o l, h)

pub Owned-same :
    (S S' : State)
    → S'.locks ≡ S.locks
    → S'.me ≡ S.me
    → S'.acquired_locks ≡ S.acquired_locks
    → Owned S
    → Owned S'
unfolding Owned
Owned-same S S' k m a o l h = ap (has l) a ∙ o l (sym (ap (λ (f : ℕ → ℕ). f l) k) ∙ h ∙ m)

Owned-begin : (S : State) → S.start_time ≢ 0 → Owned S → Owned (tr_begin S)
Owned-begin S b o = subst Owned (sym (tr_begin-inside S b)) (Owned-same _ _ refl refl refl o)

Owned-abort : (S : State) (S' : State) → Extends (inside S) S' → Owned S' → Owned (tr_abort S')
unfolding tr_abort handle_rollback
Owned-abort S S' E o = rw E.transactions (Owned-same _ _ refl refl refl o)

Owned-commit :
    (S : State) (S' : State) (t : CommitType)
    → Extends (inside S) S'
    → Owned S'
    → Owned (tr_commit t S').state
unfolding tr_commit
Owned-commit S S' t E o = rw E.transactions (Owned-same _ _ refl refl refl o)

-- Whatever a transaction does, the locks it owns are on its stack.
pub Runs-Owned : {S S' : State} → S.start_time ≢ 0 → Runs S S' → Owned S → Owned S'
unfolding internal_write internal_node_write tr_memory_alloc tr_memory_free
Runs-Owned b done o = o
Runs-Owned b (wrote {S} {S1} {S2} lock p new r h) o =
    subst Owned (memory_write_inv lock p new S1 h)
      (Owned-same _ _ refl refl refl (util_lock-Owned lock S1 (Runs-Owned b r o)))
Runs-Owned b (node_wrote {S} {S1} {S2} lock p offset new r h) o =
    subst Owned (node_write_inv lock p offset new S1 h)
      (Owned-same _ _ refl refl refl (util_lock-Owned lock S1 (Runs-Owned b r o)))
Runs-Owned b (has_read {S} {S1} {S2} lock p size bytes r h) o =
    subst Owned (memory_read_inv lock p size bytes S1 h)
      (Owned-same _ _ refl refl refl (Runs-Owned b r o))
Runs-Owned b (allocated p r) o = Owned-same _ _ refl refl refl (Runs-Owned b r o)
Runs-Owned b (released p r) o = Owned-same _ _ refl refl refl (Runs-Owned b r o)
Runs-Owned b (ticked t r) o = Owned-same _ _ refl refl refl (Runs-Owned b r o)
Runs-Owned b (committed {S} {S1} {S2} t r q) o =
    let b1 = still_busy b (Runs-Extends b r) in
    Owned-commit S1 S2 t
      (subst (λ x. Extends x S2) (tr_begin-inside S1 b1) (Runs-Extends (begin_busy S1 b1) q))
      (Runs-Owned (begin_busy S1 b1) q (Owned-begin S1 b1 (Runs-Owned b r o)))
Runs-Owned b (aborted {S} {S1} {S2} r q) o =
    let b1 = still_busy b (Runs-Extends b r) in
    Owned-abort S1 S2
      (subst (λ x. Extends x S2) (tr_begin-inside S1 b1) (Runs-Extends (begin_busy S1 b1) q))
      (Runs-Owned (begin_busy S1 b1) q (Owned-begin S1 b1 (Runs-Owned b r o)))
