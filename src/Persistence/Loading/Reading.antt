-- ===== src/Persistence/Loading/Reading.antt =====
-- A calculus of what a reading function takes from the bytes of an element.
use hybrid_databases.Base.{
  ℕ, ◌+◌, ◌^◌, ◌<◌, ◌≡◌, refl, sym, ap, ◌∙◌, arith, true, List, [], ◌∷◌, ◌++◌, length,
  length-append, append-nil, append_assoc, subst, ◌==◌,
}
use hybrid_databases.Storage.Format.{array_begin, array_end}
use hybrid_databases.Storage.Reader.{Reader}
use hybrid_databases.Storage.Reader.Lengths.{
  at, Fits, read_array-at, read_array_end-at, read_string-at, read_number-at,
}
use hybrid_databases.Storage.Items.{Item, Items, str, arr, nil, cons, encode, encode_items}
use hybrid_databases.Storage.Items.Skipping.{reader_skip-encode_items}
use hybrid_databases.Persistence.Emitting.{num, number_bytes, append_items, encode_items-append}
use hybrid_databases.Persistence.Loading.{
  Load, Store, got, ◌>>=◌, >>=-got, return, r_array, r_mark, r_mark_end, r_string, r_number,
  same_bytes, r_skip, r_check_string, r_check_number, r_raw_string,
}

-- At depth `d`, `m` reads `bs` before `end`, gives `a`, turns the nodes `S` into `S'` and stands
-- behind `bs` at depth `d'`.
pub record Loads {A : Type 0} (m : Load A) (bs end : List ℕ) (a : A) (S S' : Store) (d d' : ℕ)
    : Type 0 where
  pub run :
      (base : ℕ) (done more : List ℕ)
      → Fits base done (bs ++ (end ++ more))
      → m (at base done (bs ++ (end ++ more)) d) S
        ≡ got a (at base (done ++ bs) (end ++ more) d') S'

pub Loads-bind :
    {A B : Type 0} {m : Load A} (f : A → Load B) {bs cs end : List ℕ} {a : A} {b : B}
    {S S1 S2 : Store} {d d1 d2 : ℕ}
    → Loads m bs (cs ++ end) a S S1 d d1
    → Loads (f a) cs end b S1 S2 d1 d2
    → Loads (m >>= f) (bs ++ cs) end b S S2 d d2
Loads-bind {m} f {bs} {cs} {end} {a} {b} {S} {S1} {S2} {d} {d1} {d2} x y = record {
  run = λ base done more h.
      let e : (bs ++ cs) ++ (end ++ more) ≡ bs ++ ((cs ++ end) ++ more) =
        append_assoc bs cs (end ++ more)
        ∙ ap (λ (t : List ℕ). bs ++ t) (sym (append_assoc cs end more)) in
      let len = ap (λ (t : List ℕ). length t) e in
      let first = x.run base done more (rw e at h) in
      let second = y.run base (done ++ bs) more (
        omega (
          arith,
          len,
          length-append done bs,
          length-append bs ((cs ++ end) ++ more),
          ap (λ (t : List ℕ). length t) (append_assoc cs end more),
        )) in
      rw (e, ← append_assoc done bs cs) (>>=-got m f _ _ first (rw append_assoc second));
}

pub Loads-eq :
    {A : Type 0} {m : Load A} {bs cs end : List ℕ} {a : A} {S S' : Store} {d d' : ℕ}
    → bs ≡ cs
    → Loads m bs end a S S' d d'
    → Loads m cs end a S S' d d'
Loads-eq {m} {end} {a} {S} {S'} {d} {d'} e x = subst (λ bs. Loads m bs end a S S' d d') e x

Loads-more :
    {A : Type 0} {m : Load A} {bs end : List ℕ} (end' : List ℕ) {a : A} {S S' : Store} {d d' : ℕ}
    → Loads m bs end a S S' d d'
    → Loads m bs (end ++ end') a S S' d d'
Loads-more {bs} {end} end' x = record {
  run = λ base done more h.
      let e : (end ++ end') ++ more ≡ end ++ (end' ++ more) = append_assoc end end' more in
      rw e (x.run base done (end' ++ more) (rw e at h));
}

pub Loads-mark :
    (end : List ℕ) (S : Store) (d : ℕ) → Loads r_mark (array_begin ∷ []) end tt S S d (d + 1)
unfolding r_mark
Loads-mark end S d = record {
  run = λ base done more h. rw (read_array-at base done d (end ++ more) h) refl;
}

pub Loads-mark_end :
    (end : List ℕ) (S : Store) (d : ℕ) → Loads r_mark_end (array_end ∷ []) end tt S S (d + 1) d
unfolding r_mark_end
Loads-mark_end end S d = record {
  run = λ base done more h. rw (read_array_end-at base done d (end ++ more) h) refl;
}

pub Loads-return :
    {A : Type 0} (a : A) (end : List ℕ) (S : Store) (d : ℕ) → Loads (return a) [] end a S S d d
Loads-return a end S d = record { run = λ base done more h. rw append-nil }

-- Anywhere, `m` reads the element `x`, or the elements `xs` in front of `end`.
pub record Reads {A : Type 0} (m : Load A) (x : Item) (a : A) (S S' : Store) : Type 0 where
  pub loads : (end : List ℕ) (d : ℕ) → Loads m (encode x) end a S S' d d

pub record ReadsAll {A : Type 0} (end : List ℕ) (m : Load A) (xs : Items) (a : A) (S S' : Store)
    : Type 0 where
  pub loads : (d : ℕ) → Loads m (encode_items xs) end a S S' d d

pub Reads-string : (s : List ℕ) (S : Store) → Reads r_string (str s) s S S
unfolding r_string encode
Reads-string s S = record {
  loads = λ end d. record {
    run = λ base done more h. rw (read_string-at base done d s (end ++ more) h) refl;
  };
}

pub Reads-number : (n : ℕ) (S : Store) → n < 2 ^ 64 → Reads r_number (num n) n S S
unfolding r_number
Reads-number n S small = record {
  loads = λ end d. Loads-eq (sym (number_bytes n)) (record {
    run = λ base done more h. rw (read_number-at base done d n (end ++ more) small h) refl;
  });
}

pub ReadsAll-return :
    {A : Type 0} (a : A) (end : List ℕ) (S : Store) → ReadsAll end (return a) nil a S S
unfolding encode_items
ReadsAll-return a end S = record { loads = λ d. Loads-return a end S d }

pub ReadsAll-bind :
    {A B : Type 0} {m : Load A} (f : A → Load B) {x : Item} {xs : Items} {a : A} {b : B}
    {S S1 S2 : Store} {end : List ℕ}
    → Reads m x a S S1
    → ReadsAll end (f a) xs b S1 S2
    → ReadsAll end (m >>= f) (cons x xs) b S S2
unfolding encode_items
ReadsAll-bind f {xs} {end} p q = record {
  loads = λ d. Loads-bind f (p.loads (encode_items xs ++ end) d) (q.loads d);
}

pub Reads-array :
    {A : Type 0} {body : Load A} {xs : Items} {a : A} {S S' : Store}
    → ReadsAll (array_end ∷ []) body xs a S S'
    → Reads (r_array body) (arr xs) a S S'
unfolding r_array encode
Reads-array {xs} {a} {S} {S'} p = record {
  loads = λ end d.
      let close = Loads-bind (λ u. return a) (Loads-mark_end end S' d) (Loads-return a end S' d) in
      Loads-bind _ (Loads-mark ((encode_items xs ++ array_end ∷ []) ++ end) S d)
        (Loads-bind _ (Loads-more end (p.loads (d + 1))) close);
}

-- A step that reads nothing, in front of `m` or behind it.
pub Reads-then :
    {A B : Type 0} {m : Load A} (f : A → Load B) {x : Item} {a : A} {b : B} {S S1 S2 : Store}
    → Reads m x a S S1
    → ((R : Reader) → f a R S1 ≡ got b R S2)
    → Reads (m >>= f) x b S S2
Reads-then {m} f {x} {a} {b} {S} {S1} {S2} p q = record {
  loads = λ end d. record {
    run = λ base done more h. >>=-got m f _ _ ((p.loads end d).run base done more h) (q _);
  };
}

pub ReadsAll-then :
    {A B : Type 0} {m : Load A} (f : A → Load B) {xs : Items} {a : A} {b : B} {S S1 S2 : Store}
    {end : List ℕ}
    → ReadsAll end m xs a S S1
    → ((R : Reader) → f a R S1 ≡ got b R S2)
    → ReadsAll end (m >>= f) xs b S S2
ReadsAll-then {m} f {xs} {a} {b} {S} {S1} {S2} p q = record {
  loads = λ d. record {
    run = λ base done more h. >>=-got m f _ _ ((p.loads d).run base done more h) (q _);
  };
}

pub ReadsAll-first :
    {A B : Type 0} (m : Load A) (f : A → Load B) {xs : Items} {a : A} {b : B} {S S1 S2 : Store}
    {end : List ℕ}
    → ((R : Reader) → m R S ≡ got a R S1)
    → ReadsAll end (f a) xs b S1 S2
    → ReadsAll end (m >>= f) xs b S S2
ReadsAll-first m f {xs} {a} {b} {S} {S1} {S2} q p = record {
  loads = λ d. record {
    run = λ base done more h. >>=-got m f _ _ (q _) ((p.loads d).run base done more h);
  };
}

pub ReadsAll-skip : (xs : Items) (S : Store) → ReadsAll (array_end ∷ []) r_skip xs tt S S
unfolding r_skip
ReadsAll-skip xs S = record {
  loads = λ d. record {
    run = λ base done more h. rw (reader_skip-encode_items xs base done more d h) refl;
  };
}

pub Reads-last :
    {A : Type 0} {m : Load A} {x : Item} {a : A} {S S' : Store} (end : List ℕ)
    → Reads m x a S S'
    → ReadsAll end m (cons x nil) a S S'
unfolding encode_items
Reads-last {x} end p = record {
  loads = λ d. Loads-eq (sym (append-nil (encode x))) (p.loads end d);
}

same_bytes_self : (s : List ℕ) → same_bytes s s ≡ true
unfolding same_bytes
same_bytes_self [] = refl
same_bytes_self (x ∷ s) = ground (arith, same_bytes_self s)

pub Reads-check_string : (s : List ℕ) (S : Store) → Reads (r_check_string s) (str s) tt S S
unfolding r_check_string
Reads-check_string s S = Reads-then _ (Reads-string s S) (λ R. rw (same_bytes_self s) refl)

pub Reads-check_number : (n : ℕ) (S : Store) → n < 2 ^ 64 → Reads (r_check_number n) (num n) tt S S
unfolding r_check_number
Reads-check_number n S h =
    let e : (n == n) ≡ true = ground arith in Reads-then _ (Reads-number n S h) (λ R. rw e refl)

pub Reads-raw_string : (s : List ℕ) (S : Store) → Reads (r_raw_string (length s)) (str s) s S S
unfolding r_raw_string ◌>>=◌
Reads-raw_string s S =
    let e : (length s == length s) ≡ true = ground arith in
    Reads-then _ (Reads-string s S) (λ R. rw e refl)

-- Elements, and more behind them.
pub ReadsAll-append :
    {A B : Type 0} {m : Load A} (f : A → Load B) {xs ys : Items} {a : A} {b : B} {S S1 S2 : Store}
    {end : List ℕ}
    → ReadsAll (encode_items ys ++ end) m xs a S S1
    → ReadsAll end (f a) ys b S1 S2
    → ReadsAll end (m >>= f) (append_items xs ys) b S S2
ReadsAll-append f {xs} {ys} p q = record {
  loads = λ d. Loads-eq (sym (encode_items-append xs ys)) (Loads-bind f (p.loads d) (q.loads d));
}
