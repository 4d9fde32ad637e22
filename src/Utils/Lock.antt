-- ===== src/Utils/Lock.antt =====
-- utils/lock.h: versioned locks that never block. An unlocked lock holds an odd version, a locked
-- one the address of its owner, which is even. One call makes its accesses one at a time, so that
-- threads interleave between them.
pub mod Interleaving
use hybrid_databases.Base.{
  ℕ, zero, suc, ◌+◌, ◌%◌, Bool, true, false, not, ltb, leb, ◌==◌, if◌then◌else◌,
}

-- `l_init`
abbrev pub l_init : ℕ
l_init = 1

-- The test of `l_lock` and `l_lock_` on the value `v` that was read: nonzero means failure.
unfoldable pub lock_fails : ℕ → ℕ → ℕ → Bool
lock_fails v owner version = if v % 2 == 1 then ltb version v else not (v == owner)

-- `l_check` on the value that was read
unfoldable pub l_check : ℕ → ℕ → ℕ → Bool
l_check v owner version = if v % 2 == 1 then leb v version else v == owner

-- `atomic_cmpswp`: the new value and whether it was stored
unfoldable pub cmpswp : ℕ → ℕ → ℕ → ℕ × Bool
cmpswp value old new = if value == old then (new, true) else (value, false)

-- `l_lock` with no other thread between its accesses: the value left and the result.
unfoldable pub l_lock : ℕ → ℕ → ℕ → ℕ × ℕ
l_lock value owner version =
    if lock_fails value owner version then (value, 0) else (owner, if value == owner then 2 else 1)

-- `l_lock_`, likewise: the result is the version that was found.
unfoldable pub l_lock_version : ℕ → ℕ → ℕ → ℕ × ℕ
l_lock_version value owner version =
    if lock_fails value owner version then (value, 0) else (owner, value)

-- `l_unlock`
unfoldable pub l_unlock : ℕ → ℕ → ℕ → ℕ × Bool
l_unlock value owner version = cmpswp value owner version
