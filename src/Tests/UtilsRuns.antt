-- ===== src/Tests/UtilsRuns.antt =====
-- Runs of utils/.
use hybrid_databases.Base.{ℕ, ◌+◌, ◌*◌, ◌≡◌, refl, arith, Bool, false, some, List, [], ◌∷◌}
use hybrid_databases.Utils.Lock.{lock_fails}
use hybrid_databases.Utils.Lock.Interleaving.{
  holding, outside, called, swapping, update, System, call, read, swap, pick, Reach, start, later,
  IsNaming, mutual_exclusion,
}
use hybrid_databases.Utils.Dictionary.{Dictionary, init, insert, remove}
use hybrid_databases.Utils.Dictionary.Laws.{init-IsValid}
use hybrid_databases.Utils.Dictionary.Changes.{Inserted, insert_lem}
use hybrid_databases.Utils.Dictionary.Removal.{Removed, remove_lem}
use hybrid_databases.Utils.FastStack.Contents as Blocks
use hybrid_databases.Utils.FastStack.{
  FastStack, fstack_init, fstack_push, fstack_empty, fstack_expand, store,
}
use hybrid_databases.Utils.FastStack.Contents.{fstack_init-IsValid, fstack_push_lem, Pushed}
use hybrid_databases.Utils.FastStack.Pops.{Popped, fstack_pop_lem}

-- Thread 0 holds the lock, of those named 2, 4, 6 and so on.
abbrev naming : ℕ → ℕ
naming i = 2 * i + 2

naming-IsNaming : IsNaming naming
naming-IsNaming = record { even = λ i. omega arith; distinct = λ i j e. omega arith }

abbrev holder : ℕ
holder = 0

abbrev held : System
held = record {
  value = 2;
  pc = update (update (update (λ _. outside) 0 (called 1)) 0 (swapping 1 1)) 0 holding;
}

one_holds : Reach naming held
unfolding lock_fails
one_holds = later (later (later start (pick 0 (call 1))) (pick 0 (read refl))) (pick 0 (swap refl))

mutual_exclusion_example : (holder ≡ holder) × (held.value ≡ naming holder)
mutual_exclusion_example = mutual_exclusion naming-IsNaming one_holds holder holder refl refl

insert_lem_example :
    (D : Dictionary ℕ) × (done : Bool) × (insert 10 7 70 (init ℕ) ≡ some (D, done))
    × Inserted 10 0 7 70 (init ℕ) D done
insert_lem_example = insert_lem (init-IsValid 10) 7 70 (omega arith) (omega arith)

one_insertion :
    (D : Dictionary ℕ) × (done : Bool) × (insert 10 7 70 (init ℕ) ≡ some (D, done))
    × Inserted 10 0 7 70 (init ℕ) D done
one_insertion = insert_lem (init-IsValid 10) 7 70 (omega arith) (omega arith)

-- The dictionary with 70 at 7
abbrev one_entry : Dictionary ℕ
one_entry = one_insertion.0

remove_lem_example : Removed 10 7 one_entry (remove 7 one_entry).0 (remove 7 one_entry).1
remove_lem_example = remove_lem one_insertion.3.valid 7

abbrev page : List ℕ
page = 0 ∷ 0 ∷ []

abbrev filled : FastStack ℕ
filled = fstack_push 2 page 5 (fstack_init 2 page)

fstack_push_lem_example : Pushed 2 (omega arith) page refl 5 (fstack_init 2 page)
fstack_push_lem_example =
    fstack_push_lem 2 (omega arith) page refl 5 (fstack_init 2 page)
      (fstack_init-IsValid 2 (omega arith) page refl)

pushed-IsValid : Blocks.IsValid 2 filled
pushed-IsValid =
    (fstack_push_lem 2 (omega arith) page refl 5 (fstack_init 2 page)
      (fstack_init-IsValid 2 (omega arith) page refl)).1

filled-nonempty : fstack_empty 2 page filled ≡ false
unfolding fstack_empty fstack_init store fstack_expand fstack_push
filled-nonempty = refl

fstack_pop_lem_example : Popped 2 (omega arith) page refl 9 filled
fstack_pop_lem_example =
    fstack_pop_lem 2 (omega arith) page refl 9 filled pushed-IsValid filled-nonempty
