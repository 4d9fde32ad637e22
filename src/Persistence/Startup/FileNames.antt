-- ===== src/Persistence/Startup/FileNames.antt =====
-- The names of data files, and what `get_db_files` makes of them.
use hybrid_databases.Base.{
  ℕ, zero, suc, ◌+◌, ◌-◌, ◌*◌, ◌/◌, ◌%◌, ◌<◌, ◌≡◌, refl, ap, arith, inl, inr, true, false, some,
  List, [], ◌∷◌, ◌++◌, length, ltb, leb, ◌==◌, Bool-cases, drop-append,
}
use hybrid_databases.Persistence.Startup.{
  File, is_digit, all_digits, atol, file_number, db_files_select, db_files_sort, put_file,
  get_db_files, last, check_files,
}

-- `%i` of a number that is not negative
decimal_loop : ℕ → ℕ → List ℕ
decimal_loop zero n = []
decimal_loop (suc fuel) n = elim (ltb n 10) [
  | true ↦ (48 + n) ∷ []
  | false ↦ decimal_loop fuel (n / 10) ++ (48 + n % 10) ∷ []
]

unfoldable pub decimal : ℕ → List ℕ
unfolding decimal_loop
decimal n = decimal_loop (suc n) n

digits-append :
    (xs : List ℕ) (c value : ℕ)
    → all_digits xs ≡ true
    → is_digit c ≡ true
    → (atol value (xs ++ c ∷ []) ≡ atol value xs * 10 + (c - 48))
      × (all_digits (xs ++ c ∷ []) ≡ true)
unfolding all_digits atol
digits-append [] c value h d = (rw d refl, rw d refl)
digits-append (x ∷ xs) c value h d = elim (Bool-cases (is_digit x)) [
  | inl y ↦
      let (e, f) = digits-append xs c (value * 10 + (x - 48)) (rw y at h) d in
      (rw y e, rw (y, f) refl)
  | inr n ↦ absurd (let bad = rw n at h in cc)
]

decimal_loop-number :
    (fuel n : ℕ)
    → n < fuel
    → (atol 0 (decimal_loop fuel n) ≡ n) × (all_digits (decimal_loop fuel n) ≡ true)
unfolding decimal_loop
decimal_loop-number zero n h = elim h [ ]
decimal_loop-number (suc fuel) n h = elim (Bool-cases (ltb n 10)) [
  | inl small ↦
      let d : is_digit (48 + n) ≡ true = ground arith in
      rw (small, decimal_loop) (unfold atol all_digits in (rw d (omega arith), rw d refl))
  | inr large ↦
      let (e, f) = decimal_loop-number fuel (n / 10) (ground arith) in
      let d : is_digit (48 + n % 10) ≡ true = ground arith in
      let (e', f') = digits-append (decimal_loop fuel (n / 10)) (48 + n % 10) 0 f d in
      rw (large, decimal_loop) (omega (arith, e, e'), f')
]

-- `atol` reads the number that `%i` wrote.
pub atol-decimal : (n : ℕ) → atol 0 (decimal n) ≡ n
unfolding decimal
atol-decimal n = (decimal_loop-number (suc n) n (omega arith)).0

select-append :
    (db_name name : List ℕ)
    → all_digits name ≡ true
    → db_files_select db_name (db_name ++ name) ≡ true
unfolding db_files_select
select-append [] name h = h
select-append (c ∷ db_name) name h =
    let same : (c == c) ≡ true = ground arith in rw (same, select-append db_name name h) refl

module _ (db_name : List ℕ) where
  pub file_number-decimal : (n : ℕ) → file_number db_name (db_name ++ decimal n) ≡ n
  unfolding file_number
  file_number-decimal n = rw (drop-append db_name (decimal n)) (atol-decimal n)

  selected : (n : ℕ) → db_files_select db_name (db_name ++ decimal n) ≡ true
  selected n =
      select-append db_name (decimal n)
        (unfold decimal in (decimal_loop-number (suc n) n (omega arith)).1)

  -- Data files with these contents, numbered from `n` on
  abbrev pub numbered : ℕ → List (List ℕ) → List File
  numbered n [] = []
  numbered n (c ∷ cs) = (db_name ++ decimal n, c) ∷ numbered (n + 1) cs

  put_first :
      (n : ℕ) (c : List ℕ) (cs : List (List ℕ))
      → put_file db_name (db_name ++ decimal n, c) (numbered (n + 1) cs) ≡ numbered n (c ∷ cs)
  unfolding put_file db_files_sort
  put_first n c [] = refl
  put_first n c (d ∷ cs) =
      let before : leb n (n + 1) ≡ true = ground arith in
      rw (file_number-decimal n, file_number-decimal (n + 1), before) refl

  -- Files that are listed in their order are all selected, and keep it.
  pub get_db_files-numbered :
      (n : ℕ) (cs : List (List ℕ)) → get_db_files db_name (numbered n cs) ≡ numbered n cs
  unfolding get_db_files
  get_db_files-numbered n [] = refl
  get_db_files-numbered n (c ∷ cs) =
      rw (selected n, get_db_files-numbered (n + 1) cs) (put_first n c cs)

  last-number :
      (n : ℕ) (c : List ℕ) (cs : List (List ℕ))
      → file_number db_name (last (db_name ++ decimal n, c) (numbered (n + 1) cs)).0 ≡ n + length cs
  last-number n c [] = omega (arith, file_number-decimal n)
  last-number n c (d ∷ cs) = omega (arith, last-number (n + 1) d cs)

  length-numbered : (n : ℕ) (cs : List (List ℕ)) → length (numbered n cs) ≡ length cs
  length-numbered n [] = refl
  length-numbered n (c ∷ cs) = ap suc (length-numbered (n + 1) cs)

  -- No file is missing.
  pub check_files-numbered :
      (n : ℕ) (c : List ℕ) (cs : List (List ℕ))
      → check_files db_name (numbered n (c ∷ cs)) ≡ some (n + length cs)
  unfolding check_files
  check_files-numbered n c cs =
      let same : length (numbered (n + 1) cs) ≡ length cs = length-numbered (n + 1) cs in
      let all : (n + length cs == n + length cs) ≡ true = ground arith in
      rw (last-number n c cs, file_number-decimal n, same, all) refl
