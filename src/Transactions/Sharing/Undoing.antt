-- ===== src/Transactions/Sharing/Undoing.antt =====
-- What the rollbacks of database.include/transaction.c do to a single byte.
use hybrid_databases.Base.{
  ℕ, zero, suc, ◌+◌, ◌≡◌, ◌≤◌, ◌<◌, ◌⊎◌, inl, inr, refl, ap, ◌∙◌, arith, List, [], ◌∷◌, length,
  ◌==◌, if◌then◌else◌, Bool-cases, false,
}
use hybrid_databases.Transactions.Memory.{
  Bytes, write_bytes, read_bytes, LogItem, raw, node_modify, node_alloc, node_delete, memory_alloc,
  memory_delete, Freed, log_undo_item, undo_to,
}
use hybrid_databases.Transactions.Undo.{undo_write}

-- The memory that the log leads back to
abbrev pub undone : List LogItem → Bytes → Bytes
undone [] m = m
undone (raw p old ∷ log) m = undone log (write_bytes p old m)
undone (node_modify p offset old new ∷ log) m = undone log (write_bytes (p + offset) old m)
undone (node_alloc p ∷ log) m = undone log m
undone (node_delete p ∷ log) m = undone log m
undone (memory_alloc p ∷ log) m = undone log m
undone (memory_delete p ∷ log) m = undone log m

abbrev pub Outside : ℕ → ℕ → ℕ → Type 0
Outside p n a = (a < p) ⊎ (p + n ≤ a)

-- No item of the log holds the byte.
abbrev pub Untouched : List LogItem → ℕ → Type 0
Untouched [] a = Unit
Untouched (raw p old ∷ log) a = Outside p (length old) a × Untouched log a
Untouched (node_modify p offset old new ∷ log) a =
    Outside (p + offset) (length old) a × Untouched log a
Untouched (node_alloc p ∷ log) a = Untouched log a
Untouched (node_delete p ∷ log) a = Untouched log a
Untouched (memory_alloc p ∷ log) a = Untouched log a
Untouched (memory_delete p ∷ log) a = Untouched log a

pub length-read_bytes : (p n : ℕ) (m : Bytes) → length (read_bytes p n m) ≡ n
unfolding read_bytes
length-read_bytes p zero m = refl
length-read_bytes p (suc n) m = omega (arith, length-read_bytes (p + 1) n m)

pub write_bytes-Outside :
    (bs : List ℕ) (p : ℕ) (m : Bytes) (a : ℕ) → Outside p (length bs) a → write_bytes p bs m a ≡ m a
unfolding write_bytes
write_bytes-Outside [] p m a h = refl
write_bytes-Outside (b ∷ bs) p m a h =
    write_bytes-Outside bs (p + 1) (λ x. if x == p then b else m x) a (ground (arith, h))
    ∙ ground (arith, h)

write_bytes_at :
    (bs : List ℕ) (p : ℕ) (m m' : Bytes) (a : ℕ)
    → m a ≡ m' a
    → write_bytes p bs m a ≡ write_bytes p bs m' a
unfolding write_bytes
write_bytes_at [] p m m' a e = e
write_bytes_at (b ∷ bs) p m m' a e =
    write_bytes_at bs (p + 1) _ _ a (ap (λ v. if a == p then b else v) e)

-- The byte that a rollback leaves depends on no other.
pub undone_at :
    (log : List LogItem) (m m' : Bytes) (a : ℕ) → m a ≡ m' a → undone log m a ≡ undone log m' a
undone_at [] m m' a e = e
undone_at (raw p old ∷ log) m m' a e = undone_at log _ _ a (write_bytes_at old p m m' a e)
undone_at (node_modify p offset old new ∷ log) m m' a e =
    undone_at log _ _ a (write_bytes_at old (p + offset) m m' a e)
undone_at (node_alloc p ∷ log) m m' a e = undone_at log m m' a e
undone_at (node_delete p ∷ log) m m' a e = undone_at log m m' a e
undone_at (memory_alloc p ∷ log) m m' a e = undone_at log m m' a e
undone_at (memory_delete p ∷ log) m m' a e = undone_at log m m' a e

pub undone-Untouched :
    (log : List LogItem) (m : Bytes) (a : ℕ) → Untouched log a → undone log m a ≡ m a
undone-Untouched [] m a u = refl
undone-Untouched (raw p old ∷ log) m a (o, u) =
    undone-Untouched log _ a u ∙ write_bytes-Outside old p m a o
undone-Untouched (node_modify p offset old new ∷ log) m a (o, u) =
    undone-Untouched log _ a u ∙ write_bytes-Outside old (p + offset) m a o
undone-Untouched (node_alloc p ∷ log) m a u = undone-Untouched log m a u
undone-Untouched (node_delete p ∷ log) m a u = undone-Untouched log m a u
undone-Untouched (memory_alloc p ∷ log) m a u = undone-Untouched log m a u
undone-Untouched (memory_delete p ∷ log) m a u = undone-Untouched log m a u

-- A byte that the log of a write has not held is led back to what it was before.
pub undone-write :
    (log : List LogItem) (new : List ℕ) (p : ℕ) (m : Bytes) (a : ℕ)
    → undone log (write_bytes p (read_bytes p (length new) m) (write_bytes p new m)) a
      ≡ undone log m a
undone-write log new p m a = undone_at log _ _ a (undo_write new p m a)

-- Undoing one item
undo_item_lem :
    (item : LogItem) (log : List LogItem) (time : ℕ) (m : Bytes) (f : List Freed)
    → (undone log (log_undo_item item time (m, f)).0 ≡ undone (item ∷ log) m)
      × ((a : ℕ)
          → Untouched (item ∷ log) a
          → ((log_undo_item item time (m, f)).0 a ≡ m a) × Untouched log a)
unfolding log_undo_item
undo_item_lem (raw p old) log time m f = (refl, λ a u. (write_bytes-Outside old p m a u.0, u.1))
undo_item_lem (node_modify p offset old new) log time m f =
    (refl, λ a u. (write_bytes-Outside old (p + offset) m a u.0, u.1))
undo_item_lem (node_alloc p) log time m f = (refl, λ a u. (refl, u))
undo_item_lem (node_delete p) log time m f = (refl, λ a u. (refl, u))
undo_item_lem (memory_alloc p) log time m f = (refl, λ a u. (refl, u))
undo_item_lem (memory_delete p) log time m f = (refl, λ a u. (refl, u))

-- A rollback of a part leads back to the same.
pub record Cut (log : List LogItem) (m : Bytes) (r : List LogItem × (Bytes × List Freed))
    : Type 0 where
  pub left : (a : ℕ) → undone r.0 r.1.0 a ≡ undone log m a
  pub same : (a : ℕ) → Untouched log a → (r.1.0 a ≡ m a) × Untouched r.0 a

pub undo_to-Cut :
    (pos time : ℕ) (log : List LogItem) (m : Bytes) (f : List Freed)
    → Cut log m (undo_to pos time log (m, f))
unfolding undo_to
undo_to-Cut pos time [] m f = record { left = λ a. refl; same = λ a u. (refl, u) }
undo_to-Cut pos time (item ∷ log) m f = elim (Bool-cases (length (item ∷ log) == pos)) [
  | inl e ↦ rw e (record { left = λ a. refl; same = λ a u. (refl, u) })
  | inr e ↦ rw e (
      let s = log_undo_item item time (m, f) in
      let l = undo_item_lem item log time m f in
      let c = undo_to-Cut pos time log s.0 s.1 in
      record {
        left = λ a. c.left a ∙ ap (λ (b : Bytes). b a) l.0;
        same = λ a u. let d = l.1 a u in let r = c.same a d.1 in (r.0 ∙ d.0, r.1);
      })
]

-- A rollback of all
pub undo_to-undone :
    (time : ℕ) (log : List LogItem) (m : Bytes) (f : List Freed)
    → ((undo_to 0 time log (m, f)).0 ≡ []) × ((undo_to 0 time log (m, f)).1.0 ≡ undone log m)
unfolding undo_to
undo_to-undone time [] m f = (refl, refl)
undo_to-undone time (item ∷ log) m f =
    let e : (length (item ∷ log) == 0) ≡ false = ground arith in
    let s = log_undo_item item time (m, f) in
    let r = undo_to-undone time log s.0 s.1 in rw e (r.0, r.1 ∙ (undo_item_lem item log time m f).0)
