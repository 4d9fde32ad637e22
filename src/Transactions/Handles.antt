-- ===== src/Transactions/Handles.antt =====
-- database.include/handle.c: the handles of a database, as the stack of their addresses from its
-- bottom, and what becomes of a transaction when its handle is destroyed.
use hybrid_databases.Base.{
  ℕ, ◌+◌, ◌≡◌, ◌<◌, refl, arith, false, List, [], ◌∷◌, ◌++◌, ◌==◌, if◌then◌else◌, Bool-cases, inl,
  inr,
}
use hybrid_databases.Transactions.State.{State, ct_async}
use hybrid_databases.Transactions.Commit.{tr_abort_main}

-- The fields that `db_handle_init` sets, for a handle at `me`; the database keeps its own.
unfoldable pub db_handle_init : ℕ → State → List ℕ → State × List ℕ
db_handle_init me D handles = (
  record D {
    me = me;
    start_time = 0;
    read_set = [];
    transactions = [];
    log = [];
    commit_type = ct_async;
    acquired_locks = [];
  },
  handles ++ (me ∷ []),
)

-- `stack_top` and `stack_pop` from the bottom
unfoldable pub top_of : ℕ → List ℕ → ℕ
top_of x [] = x
top_of x (y ∷ ys) = top_of y ys

unfoldable pub popped : ℕ → List ℕ → List ℕ
popped x [] = []
popped x (y ∷ ys) = x ∷ popped y ys

-- The loop of `db_handle_destroy`: the first slot with the handle gets the top one.
unfoldable pub replace_first : ℕ → ℕ → List ℕ → List ℕ
replace_first h v [] = []
replace_first h v (x ∷ xs) = if x == h then v ∷ xs else x ∷ replace_first h v xs

unfoldable pub occurrences : ℕ → List ℕ → ℕ
occurrences h [] = 0
occurrences h (x ∷ xs) = (if x == h then 1 else 0) + occurrences h xs

unfoldable pub pop_all : List ℕ → List ℕ
pop_all [] = []
pop_all (x ∷ xs) = popped x xs

unfoldable pub unregister : ℕ → List ℕ → List ℕ
unregister h [] = []
unregister h (x ∷ xs) =
    if occurrences h (x ∷ xs) == 0 then x ∷ xs else pop_all (replace_first h (top_of x xs) (x ∷ xs))

-- `db_handle_destroy`
unfoldable pub db_handle_destroy : State → List ℕ → State × List ℕ
db_handle_destroy H handles =
    (if H.start_time == 0 then H else tr_abort_main H, unregister H.me handles)

count_popped :
    (j x : ℕ) (xs : List ℕ)
    → occurrences j (popped x xs) + (if top_of x xs == j then 1 else 0) ≡ occurrences j (x ∷ xs)
unfolding occurrences popped top_of
count_popped j x [] = ground arith
count_popped j x (y ∷ ys) = omega (arith, count_popped j y ys)

top_same : (h x : ℕ) (xs : List ℕ) → top_of (if x == h then top_of x xs else x) xs ≡ top_of x xs
unfolding top_of
top_same h x [] = ground arith
top_same h x (y ∷ ys) = refl

-- Replacing a handle by the top one leaves the top one on top.
top_replaced :
    (h x : ℕ) (xs : List ℕ) (z : ℕ)
    → top_of z (replace_first h (top_of x xs) (x ∷ xs)) ≡ top_of x xs
unfolding top_of replace_first
top_replaced h x [] z = ground arith
top_replaced h x (y ∷ ys) z = elim (Bool-cases (x == h)) [
  | inl e ↦ rw e refl
  | inr e ↦ rw e (top_replaced h y ys x)
]

count_replaced :
    (j h v : ℕ) (xs : List ℕ)
    → 0 < occurrences h xs
    → occurrences j (replace_first h v xs) + (if h == j then 1 else 0)
      ≡ occurrences j xs + (if v == j then 1 else 0)
unfolding occurrences replace_first
count_replaced j h v [] p = elim p [ ]
count_replaced j h v (x ∷ xs) p = ground (arith, count_replaced j h v xs)

count_pop_all :
    (j t : ℕ) (ys : List ℕ)
    → ((z : ℕ) → top_of z ys ≡ t)
    → occurrences j (pop_all ys) + (if t == j then 1 else 0) ≡ occurrences j ys
unfolding pop_all top_of
count_pop_all j t [] h = absurd (omega (arith, h t, h (t + 1)))
count_pop_all j t (y ∷ ys) h = ground (arith, count_popped j y ys, h 0)

-- Destroying a handle that is registered takes it from the stack once, and no other.
pub unregister_lem :
    (h j : ℕ) (handles : List ℕ)
    → 0 < occurrences h handles
    → occurrences j (unregister h handles) + (if h == j then 1 else 0) ≡ occurrences j handles
unfolding unregister
unregister_lem h j [] p = unfold occurrences in elim p [ ]
unregister_lem h j (x ∷ xs) p =
    let e : (occurrences h (x ∷ xs) == 0) ≡ false = ground arith in
    rw e (
      ground (
        arith,
        count_pop_all j (top_of x xs) (replace_first h (top_of x xs) (x ∷ xs))
            (top_replaced h x xs),
        count_replaced j h (top_of x xs) (x ∷ xs) p,
      ))
