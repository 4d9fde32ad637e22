-- ===== src/Transactions/Undo.antt =====
-- Undoing the log of a transaction gives back the memory that it began with.
use hybrid_databases.Base.{
  ℕ, zero, suc, ◌+◌, ◌≡◌, ◌≢◌, ◌≤◌, ◌<◌, refl, ap, arith, false, List, [], ◌∷◌, ◌++◌, length, ◌==◌,
  if◌then◌else◌, subst, length-append,
}
use native.Mathlib.Decide.{ℕ_discrete}
use hybrid_databases.Transactions.Memory.{
  Bytes, write_bytes, read_bytes, LogItem, raw, node_modify, node_alloc, node_delete, memory_alloc,
  memory_delete, Freed, log_undo_item, undo_to,
}

restored_at :
    (p : ℕ) (m m' : Bytes) (a : ℕ) → (a ≢ p → m' a ≡ m a) → (if a == p then m p else m' a) ≡ m a
restored_at p m m' a h = elim (ℕ_discrete a p) [
  | yes e ↦ subst (λ x. (if a == x then m x else m' a) ≡ m a) e (ground arith)
  | no ne ↦ ground (arith, h ne)
]

write_bytes-read_bytes :
    (n p : ℕ) (m m' : Bytes) (a : ℕ)
    → (a < p → m' a ≡ m a)
    → (p + n ≤ a → m' a ≡ m a)
    → write_bytes p (read_bytes p n m) m' a ≡ m a
unfolding write_bytes read_bytes
write_bytes-read_bytes zero p m m' a low high = ground arith
write_bytes-read_bytes (suc n) p m m' a low high =
    write_bytes-read_bytes n (p + 1) m (λ x. if x == p then m p else m' x) a
      (λ h. restored_at p m m' a (λ ne. low (omega arith)))
      (λ h. restored_at p m m' a (λ ne. high (omega arith)))

write_bytes_below : (bs : List ℕ) (p : ℕ) (m : Bytes) (a : ℕ) → a < p → write_bytes p bs m a ≡ m a
unfolding write_bytes
write_bytes_below [] p m a h = refl
write_bytes_below (b ∷ bs) p m a h =
    ground (arith, write_bytes_below bs (p + 1) (λ x. if x == p then b else m x) a (omega arith))

write_bytes_above :
    (bs : List ℕ) (p : ℕ) (m : Bytes) (a : ℕ) → p + length bs ≤ a → write_bytes p bs m a ≡ m a
unfolding write_bytes
write_bytes_above [] p m a h = refl
write_bytes_above (b ∷ bs) p m a h =
    ground (arith, write_bytes_above bs (p + 1) (λ x. if x == p then b else m x) a (omega arith))

-- The bytes read before a write, written back, undo it.
pub undo_write :
    (new : List ℕ) (p : ℕ) (m : Bytes) (a : ℕ)
    → write_bytes p (read_bytes p (length new) m) (write_bytes p new m) a ≡ m a
undo_write new p m a =
    write_bytes-read_bytes (length new) p m (write_bytes p new m) a (write_bytes_below new p m a)
      (write_bytes_above new p m a)

write_bytes_cong :
    (bs : List ℕ) (p : ℕ) (m m' : Bytes)
    → ((a : ℕ) → m a ≡ m' a)
    → (a : ℕ) → write_bytes p bs m a ≡ write_bytes p bs m' a
unfolding write_bytes
write_bytes_cong [] p m m' e = e
write_bytes_cong (b ∷ bs) p m m' e =
    write_bytes_cong bs (p + 1) _ _ (λ a. ap (λ v. if a == p then b else v) (e a))

-- Undoing items, newest first.
unfoldable pub undo_items : List LogItem → ℕ → Bytes × List Freed → Bytes × List Freed
undo_items [] time s = s
undo_items (item ∷ items) time s = undo_items items time (log_undo_item item time s)

-- The rollback to a length undoes what stands above it.
pub undo_to-undo_items :
    (items base : List LogItem) (time : ℕ) (s : Bytes × List Freed)
    → undo_to (length base) time (items ++ base) s ≡ (base, undo_items items time s)
unfolding undo_to undo_items
undo_to-undo_items [] [] time s = refl
undo_to-undo_items [] (b ∷ base) time s = ground arith
undo_to-undo_items (item ∷ items) base time s =
    let e : (length ((item ∷ items) ++ base) == length base) ≡ false =
      ground (arith, length-append items base) in
    rw e (undo_to-undo_items items base time (log_undo_item item time s))

module _ (time : ℕ) where
  log_undo_item_cong :
      (item : LogItem) (m m' : Bytes) (f f' : List Freed)
      → ((a : ℕ) → m a ≡ m' a)
      → (a : ℕ) → (log_undo_item item time (m, f)).0 a ≡ (log_undo_item item time (m', f')).0 a
  unfolding log_undo_item
  log_undo_item_cong (raw p old) m m' f f' e = write_bytes_cong old p m m' e
  log_undo_item_cong (node_modify p offset old new) m m' f f' e =
      write_bytes_cong old (p + offset) m m' e
  log_undo_item_cong (node_alloc p) m m' f f' e = e
  log_undo_item_cong (node_delete p) m m' f f' e = e
  log_undo_item_cong (memory_alloc p) m m' f f' e = e
  log_undo_item_cong (memory_delete p) m m' f f' e = e

  pub undo_items_cong :
      (items : List LogItem) (m m' : Bytes) (f f' : List Freed)
      → ((a : ℕ) → m a ≡ m' a)
      → (a : ℕ) → (undo_items items time (m, f)).0 a ≡ (undo_items items time (m', f')).0 a
  unfolding undo_items
  undo_items_cong [] m m' f f' e = e
  undo_items_cong (item ∷ items) m m' f f' e =
      undo_items_cong items _ _ _ _ (log_undo_item_cong item m m' f f' e)

  pub undo_items-append :
      (xs ys : List LogItem) (s : Bytes × List Freed)
      → undo_items (xs ++ ys) time s ≡ undo_items ys time (undo_items xs time s)
  unfolding undo_items
  undo_items-append [] ys s = refl
  undo_items-append (x ∷ xs) ys s = undo_items-append xs ys (log_undo_item x time s)
