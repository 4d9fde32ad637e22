-- ===== src/Utils/Lock/Interleaving.antt =====
-- Threads that call `l_lock` and `l_unlock` on one lock, interleaved between the read and the
-- compare-and-swap of the loop. Thread `i` is known to the lock by the even address `name i`.
use hybrid_databases.Base.{ℕ, ◌%◌, ◌≤◌, ◌≡◌, ◌≢◌, refl, arith, true, false, ◌==◌, if◌then◌else◌}
use hybrid_databases.Utils.Lock.{lock_fails}

-- Where a thread stands, with the version that it passed to the call.
pub data Pc : Type 0 where
  outside : Pc
  called : (version : ℕ) → Pc  -- before `atomic_read`
  swapping : (version v : ℕ) → Pc  -- `v` was read and the test passed
  holding : Pc

pub record System : Type 0 where
  pub value : ℕ
  pub pc : ℕ → Pc

abbrev pub update : (ℕ → Pc) → ℕ → Pc → ℕ → Pc
update f i p j = if i == j then p else f j

-- One access of one thread. A holder that calls `l_lock` again gets 2 and stays a holder, so that
-- call is not among the moves. A thread unlocks with an odd version.
pub data Move (name : ℕ) (value : ℕ) : Pc → ℕ → Pc → Type 0 where
  call : (version : ℕ) → Move name value outside value (called version)
  refuse :
      {version : ℕ}
      → lock_fails value name version ≡ true
      → Move name value (called version) value outside
  read :
      {version : ℕ}
      → lock_fails value name version ≡ false
      → Move name value (called version) value (swapping version value)
  swap : {version v : ℕ} → value ≡ v → Move name value (swapping version v) name holding
  retry : {version v : ℕ} → value ≢ v → Move name value (swapping version v) value (called version)
  unlock : (version : ℕ) → version % 2 ≡ 1 → value ≡ name → Move name value holding version outside

module _ (name : ℕ → ℕ) where
  pub data Step (s : System) : System → Type 0 where
    pick :
        (i : ℕ) {value : ℕ} {p : Pc}
        → Move (name i) s.value (s.pc i) value p
        → Step s (record { value = value; pc = update s.pc i p })

  pub data Reach : System → Type 0 where
    start : Reach (record { value = 1; pc = λ _. outside })
    later : {s t : System} → Reach s → Step s t → Reach t

-- Owners are aligned to two bytes, and different threads have different handles.
pub record IsNaming (name : ℕ → ℕ) : Type 0 where
  pub even : (i : ℕ) → name i % 2 ≡ 0
  pub distinct : (i j : ℕ) → name i ≡ name j → i ≡ j

-- What the threads' positions say of the value. A thread that is about to swap has read an odd
-- version: the value was its own name only if it held the lock.
pub record Inv (name : ℕ → ℕ) (value : ℕ) (pc : ℕ → Pc) : Type 0 where
  pub held : (i : ℕ) → pc i ≡ holding → value ≡ name i
  pub owned : (i : ℕ) → value ≡ name i → pc i ≡ holding
  pub odd : (i version v : ℕ) → pc i ≡ swapping version v → (v % 2 ≡ 1) × (v ≤ version)

module _ {name : ℕ → ℕ} (n : IsNaming name) {value : ℕ} {pc : ℕ → Pc} (inv : Inv name value pc)
    (i : ℕ) where
  Move-held :
      {p p' : Pc} {value' : ℕ}
      → Move (name i) value p value' p'
      → pc i ≡ p
      → (j : ℕ) → update pc i p' j ≡ holding
      → value' ≡ name j
  unfolding lock_fails
  Move-held (call version) e j h = ground (arith, inv.held j)
  Move-held (refuse t) e j h = ground (arith, inv.held j)
  Move-held (read t) e j h = ground (arith, inv.held j)
  Move-held (swap {version} {v} t) e j h =
      ground (arith, inv.held j, inv.odd i version v e, n.even j)
  Move-held (retry t) e j h = ground (arith, inv.held j)
  Move-held (unlock version o t) e j h = ground (arith, inv.held j, n.distinct i j)

  Move-owned :
      {p p' : Pc} {value' : ℕ}
      → Move (name i) value p value' p'
      → pc i ≡ p
      → (j : ℕ) → value' ≡ name j
      → update pc i p' j ≡ holding
  Move-owned (call version) e j h = ground (arith, inv.owned j)
  Move-owned (refuse t) e j h = ground (arith, inv.owned j)
  Move-owned (read t) e j h = ground (arith, inv.owned j)
  Move-owned (swap t) e j h = ground (arith, n.distinct i j)
  Move-owned (retry t) e j h = ground (arith, inv.owned j)
  Move-owned (unlock version o t) e j h = ground (arith, n.even j)

  Move-odd :
      {p p' : Pc} {value' : ℕ}
      → Move (name i) value p value' p'
      → pc i ≡ p
      → (j version v : ℕ) → update pc i p' j ≡ swapping version v
      → (v % 2 ≡ 1) × (v ≤ version)
  unfolding lock_fails
  Move-odd (read t) e j version v h = ground (arith, inv.odd j version v, inv.owned i)
  Move-odd mv e j version v h = ground (arith, inv.odd j version v)

  Move-Inv :
      {p' : Pc} {value' : ℕ}
      → Move (name i) value (pc i) value' p'
      → Inv name value' (update pc i p')
  Move-Inv mv = record {
    held = Move-held mv refl;
    owned = Move-owned mv refl;
    odd = Move-odd mv refl;
  }

pub Reach-Inv : {name : ℕ → ℕ} {s : System} → IsNaming name → Reach name s → Inv name s.value s.pc
Reach-Inv {name} n start = record {
  held = λ i h. cc;
  owned = λ i h. ground (arith, n.even i);
  odd = λ i version v h. cc;
}
Reach-Inv n (later r (pick i mv)) = Move-Inv n (Reach-Inv n r) i mv

-- In every reachable state at most one thread holds the lock, and while one does the value of the
-- lock is its address.
pub mutual_exclusion :
    {name : ℕ → ℕ} {s : System}
    → IsNaming name
    → Reach name s
    → (i j : ℕ) → s.pc i ≡ holding
    → s.pc j ≡ holding
    → (i ≡ j) × (s.value ≡ name i)
mutual_exclusion {name} {s} n r i j a b =
    let v = Reach-Inv n r in
    let p : s.value ≡ name i = v.held i a in
    let q : s.value ≡ name j = v.held j b in (n.distinct i j (cc), p)
