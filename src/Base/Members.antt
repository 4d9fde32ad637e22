-- ===== src/Base/Members.antt =====
-- Membership of numbers in lists, as a test, and lists without repetition.
use Prim.Native.Nat.{ℕ}
use mathlib.Core.Path.{◌≡◌, refl}
use mathlib.Core.Bool.{Bool, false, ◌||◌}
use mathlib.Core.List.{List, [], ◌∷◌, ◌++◌}
use native.Mathlib.Omega.{arith}
use hybrid_databases.Base.Tests.{◌==◌}

abbrev pub has : ℕ → List ℕ → Bool
has a [] = false
has a (x ∷ xs) = (a == x) || has a xs

abbrev pub Distinct : List ℕ → Type 0
Distinct [] = Unit
Distinct (x ∷ xs) = (has x xs ≡ false) × Distinct xs

pub has-append : (a : ℕ) (xs ys : List ℕ) → has a (xs ++ ys) ≡ (has a xs || has a ys)
has-append a [] ys = refl
has-append a (x ∷ xs) ys = ground (arith, has-append a xs ys)

pub Distinct-append :
    (b : ℕ) (xs : List ℕ) → has b xs ≡ false → Distinct xs → Distinct (xs ++ b ∷ [])
Distinct-append b [] h d = (refl, tt)
Distinct-append b (x ∷ xs) h d =
    (ground (arith, has-append x xs (b ∷ [])), Distinct-append b xs (ground arith) d.1)
