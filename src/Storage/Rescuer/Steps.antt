-- ===== src/Storage/Rescuer/Steps.antt =====
-- The copying loop of `process_element`, an element at a time.
use hybrid_databases.Base.{
  ℕ, suc, ◌+◌, ◌^◌, ◌≤◌, ◌<◌, ◌≡◌, refl, ap, ◌∙◌, arith, List, [], ◌∷◌, ◌++◌, length, length-append,
  append-nil, append_assoc, some, ◌-◌,
}
use hybrid_databases.Storage.Format.{array_begin, array_end, string_mark}
use hybrid_databases.Storage.Writer.{Writer, write_array, write_array_end}
use hybrid_databases.Storage.Writer.Bounds.{string_bytes}
use hybrid_databases.Storage.Reader.{ok, reader_next}
use hybrid_databases.Storage.Reader.Lengths.{
  at, Fits, read_string-at, reader_next_string, read_array-at, read_array_end-at,
  string_bytes_nonempty,
}
use hybrid_databases.Storage.Items.{
  Item, Items, str, arr, nil, cons, encode, encode_items, write_item, write_items,
}
use hybrid_databases.Storage.Items.Skipping.{rounds, rounds_items, rounds_items-le-length}
use hybrid_databases.Storage.Rescuer.{copy_loop}
use hybrid_databases.Base.Options.{>>=-eq-some, ◌>>=◌}

module _ (base : ℕ) (done : List ℕ) (depth fuel indent : ℕ) (W W1 : Writer) where
  copy_string :
      (bs more : List ℕ)
      → Fits base done (encode (str bs) ++ more)
      → write_item W (str bs) ≡ some W1
      → copy_loop (suc fuel) (suc indent) (at base done (encode (str bs) ++ more) depth) W
        ≡ copy_loop fuel (suc indent) (at base (done ++ encode (str bs)) more depth) W1
  unfolding copy_loop encode write_item
  copy_string bs more f e =
      let n : length bs + string_mark < 2 ^ 64 =
        omega (arith, length-append (string_bytes bs) more, string_bytes_nonempty bs) in
      ground (
        arith,
        read_string-at base done depth bs more f,
        reader_next_string base done depth bs more n,
      )

  copy_array :
      (more : List ℕ)
      → Fits base done (array_begin ∷ more)
      → write_array W ≡ some W1
      → copy_loop (suc fuel) indent (at base done (array_begin ∷ more) depth) W
        ≡ copy_loop fuel (suc indent) (at base (done ++ array_begin ∷ []) more (depth + 1)) W1
  unfolding copy_loop reader_next
  copy_array more f e = ground (arith, read_array-at base done depth more f)

  copy_array_end :
      (more : List ℕ)
      → Fits base done (array_end ∷ more)
      → write_array_end W ≡ some W1
      → copy_loop (suc fuel) (suc (suc indent)) (at base done (array_end ∷ more) (depth + 1)) W
        ≡ copy_loop fuel (suc indent) (at base (done ++ array_end ∷ []) more depth) W1
  unfolding copy_loop reader_next
  copy_array_end more f e = ground (arith, read_array_end-at base done depth more f)

  last_string :
      (bs more : List ℕ)
      → Fits base done (encode (str bs) ++ more)
      → write_item W (str bs) ≡ some W1
      → copy_loop (suc fuel) 0 (at base done (encode (str bs) ++ more) depth) W
        ≡ ok (at base (done ++ encode (str bs)) more depth, W1)
  unfolding copy_loop encode write_item
  last_string bs more f e =
      let n : length bs + string_mark < 2 ^ 64 =
        omega (arith, length-append (string_bytes bs) more, string_bytes_nonempty bs) in
      ground (
        arith,
        read_string-at base done depth bs more f,
        reader_next_string base done depth bs more n,
      )

  last_array_end :
      (more : List ℕ)
      → Fits base done (array_end ∷ more)
      → write_array_end W ≡ some W1
      → copy_loop (suc fuel) 1 (at base done (array_end ∷ more) (depth + 1)) W
        ≡ ok (at base (done ++ array_end ∷ []) more depth, W1)
  unfolding copy_loop reader_next
  last_array_end more f e = ground (arith, read_array_end-at base done depth more f)

-- What writing an array consists of.
array_steps :
    (W : Writer) (xs : Items) {W3 : Writer}
    → write_item W (arr xs) ≡ some W3
    → (W1 : Writer) × (W2 : Writer) × (write_array W ≡ some W1)
      × (write_items W1 xs ≡ some W2)
      × (write_array_end W2 ≡ some W3)
unfolding write_item
array_steps W xs e =
    let (W1, e1, r) =
      >>=-eq-some (write_array W) (λ W1. do W2 ← write_items W1 xs; write_array_end W2) e in
    let (W2, e2, e3) = >>=-eq-some (write_items W1 xs) write_array_end r in (W1, W2, e1, e2, e3)

items_steps :
    (W : Writer) (x : Item) (xs : Items) {W2 : Writer}
    → write_items W (cons x xs) ≡ some W2
    → (W1 : Writer) × (write_item W x ≡ some W1) × (write_items W1 xs ≡ some W2)
unfolding write_items
items_steps W x xs e = >>=-eq-some (write_item W x) (λ W1. write_items W1 xs) e

-- The bytes of an array with `more` behind it, and the lengths of its parts.
array_split :
    (xs : Items) (more : List ℕ)
    → encode (arr xs) ++ more ≡ array_begin ∷ (encode_items xs ++ array_end ∷ more)
unfolding encode
array_split xs more =
    ap (λ t. array_begin ∷ t) (append_assoc (encode_items xs) (array_end ∷ []) more)

array_join :
    (xs : Items) (done : List ℕ)
    → ((done ++ array_begin ∷ []) ++ encode_items xs) ++ array_end ∷ [] ≡ done ++ encode (arr xs)
unfolding encode
array_join xs done =
    append_assoc (done ++ array_begin ∷ []) (encode_items xs) (array_end ∷ [])
    ∙ append_assoc done (array_begin ∷ []) (encode_items xs ++ array_end ∷ [])

items_split :
    (x : Item) (xs : Items) (more : List ℕ)
    → encode_items (cons x xs) ++ more ≡ encode x ++ (encode_items xs ++ more)
unfolding encode_items
items_split x xs more = append_assoc (encode x) (encode_items xs) more

items_join :
    (x : Item) (xs : Items) (done : List ℕ)
    → (done ++ encode x) ++ encode_items xs ≡ done ++ encode_items (cons x xs)
unfolding encode_items
items_join x xs done = append_assoc done (encode x) (encode_items xs)

items_none : (W : Writer) {W' : Writer} → write_items W nil ≡ some W' → W ≡ W'
unfolding write_items
items_none W e = cc

encode_items-nil : encode_items nil ≡ []
unfolding encode_items
encode_items-nil = refl

mutual
  unfolding rounds rounds_items

  copy_item :
      (x : Item) (base : ℕ) (done more : List ℕ) (depth fuel rest indent : ℕ) (W W' : Writer)
      → write_item W x ≡ some W'
      → fuel ≡ rounds x + rest
      → Fits base done (encode x ++ more)
      → copy_loop fuel (suc indent) (at base done (encode x ++ more) depth) W
        ≡ copy_loop rest (suc indent) (at base (done ++ encode x) more depth) W'
  copy_item (str bs) base done more depth fuel rest indent W W' w e f =
      let e' : fuel ≡ suc rest = omega arith in
      rw e' (copy_string base done depth rest indent W W' bs more f w)
  copy_item (arr xs) base done more depth fuel rest indent W W' w e f =
      let (W1, W2, w1, w2, w3) = array_steps W xs w in
      let inner = rounds_items xs + suc rest in
      let e' : fuel ≡ suc inner = omega arith in
      let len = ap (λ (t : List ℕ). length t) (array_split xs more) in
      rw (e', array_split, ← array_join)
        (copy_array base done depth inner (suc indent) W W1 (encode_items xs ++ array_end ∷ more)
            (omega (arith, len)) w1
          ∙ copy_items xs base (done ++ array_begin ∷ []) (array_end ∷ more) (depth + 1) inner
              (suc rest) (suc indent) W1 W2 w2 refl
              (omega (arith, len, length-append done (array_begin ∷ [])))
          ∙ copy_array_end base ((done ++ array_begin ∷ []) ++ encode_items xs) depth rest indent W2
              W' more
              (omega (
                arith,
                len,
                length-append (done ++ array_begin ∷ []) (encode_items xs),
                length-append done (array_begin ∷ []),
                length-append (encode_items xs) (array_end ∷ more),
              ))
              w3)

  copy_items :
      (xs : Items) (base : ℕ) (done more : List ℕ) (depth fuel rest indent : ℕ) (W W' : Writer)
      → write_items W xs ≡ some W'
      → fuel ≡ rounds_items xs + rest
      → Fits base done (encode_items xs ++ more)
      → copy_loop fuel (suc indent) (at base done (encode_items xs ++ more) depth) W
        ≡ copy_loop rest (suc indent) (at base (done ++ encode_items xs) more depth) W'
  copy_items nil base done more depth fuel rest indent W W' w e f =
      let e' : fuel ≡ rest = omega arith in rw (e', encode_items-nil, append-nil, items_none W w)
  copy_items (cons x xs) base done more depth fuel rest indent W W' w e f =
      let (W1, w1, w2) = items_steps W x xs w in
      let len = ap (λ (t : List ℕ). length t) (items_split x xs more) in
      rw (items_split, ← items_join)
        (copy_item x base done (encode_items xs ++ more) depth fuel (rounds_items xs + rest) indent
            W W1 w1 (omega arith) (omega (arith, len))
          ∙ copy_items xs base (done ++ encode x) more depth (rounds_items xs + rest) rest indent W1
              W' w2 refl
              (omega (
                arith,
                len,
                length-append done (encode x),
                length-append (encode x) (encode_items xs ++ more),
              )))

pub copy_root :
    (x : Item) (base : ℕ) (more : List ℕ) (W W' : Writer)
    → write_item W x ≡ some W'
    → Fits base [] (encode x ++ more)
    → copy_loop (length (encode x ++ more) + 1) 0 (at base [] (encode x ++ more) 0) W
      ≡ ok (at base (encode x) more 0, W')
unfolding encode
copy_root (str bs) base more W W' w f =
    let n = length (encode (str bs) ++ more) in
    let e : n + 1 ≡ suc n = omega arith in rw e (last_string base [] 0 n 0 W W' bs more f w)
copy_root (arr xs) base more W W' w f =
    let (W1, W2, w1, w2, w3) = array_steps W xs w in
    let n = length (encode (arr xs) ++ more) in
    let len = ap (λ (t : List ℕ). length t) (array_split xs more) in
    let left = n - rounds_items xs - 1 in
    let fit : rounds_items xs + 1 ≤ n =
      omega (
        arith,
        len,
        rounds_items-le-length xs,
        length-append (encode_items xs) (array_end ∷ more),
      ) in
    let e : n + 1 ≡ suc n = omega arith in
    rw (e, array_split, ← array_join xs [])
      (copy_array base [] 0 n 0 W W1 (encode_items xs ++ array_end ∷ more) (omega (arith, len)) w1
        ∙ copy_items xs base (array_begin ∷ []) (array_end ∷ more) 1 n (suc left) 0 W1 W2 w2
            (omega arith) (omega (arith, len))
        ∙ last_array_end base (array_begin ∷ encode_items xs) 0 left 0 W2 W' more
            (omega (arith, len, length-append (encode_items xs) (array_end ∷ more))) w3)
