-- ===== src/Storage/Items/Skipping.antt =====
-- `reader_skip` passes over whole elements.
use hybrid_databases.Base.{
  ℕ, suc, ◌+◌, ◌^◌, ◌≤◌, ◌<◌, ◌≡◌, refl, ap, ◌∙◌, arith, List, [], ◌∷◌, ◌++◌, length, length-append,
  append-nil, append_assoc, ◌-◌,
}
use hybrid_databases.Storage.Format.{array_begin, array_end, string_mark}
use hybrid_databases.Storage.Writer.Bounds.{string_bytes}
use hybrid_databases.Storage.Reader.{ok, reader_next, skip_loop, reader_skip}
use hybrid_databases.Storage.Reader.Lengths.{
  at, Fits, read_string-at, reader_next_string, read_array-at, read_array_end-at,
  string_bytes_nonempty,
}
use hybrid_databases.Storage.Items.{Item, Items, str, arr, nil, cons, encode, encode_items}

-- How many rounds of a loop over elements an element takes.
unfoldable mutual
  pub rounds : Item → ℕ
  rounds (str bs) = 1
  rounds (arr xs) = 2 + rounds_items xs

  pub rounds_items : Items → ℕ
  rounds_items nil = 0
  rounds_items (cons x xs) = rounds x + rounds_items xs

mutual
  unfolding rounds rounds_items encode encode_items

  rounds-le : (x : Item) → rounds x ≤ length (encode x)
  rounds-le (str bs) = omega (arith, string_bytes_nonempty bs)
  rounds-le (arr xs) =
      omega (arith, rounds_items_le xs, length-append (encode_items xs) (array_end ∷ []))

  rounds_items_le : (xs : Items) → rounds_items xs ≤ length (encode_items xs)
  rounds_items_le nil = omega arith
  rounds_items_le (cons x xs) =
      omega (arith, rounds-le x, rounds_items_le xs, length-append (encode x) (encode_items xs))

pub rounds_items-le-length : (xs : Items) → rounds_items xs ≤ length (encode_items xs)
rounds_items-le-length xs = rounds_items_le xs

pub rounds-le-length : (x : Item) → rounds x ≤ length (encode x)
rounds-le-length x = rounds-le x

module _ (base : ℕ) (done : List ℕ) (depth fuel d : ℕ) where
  skip_string :
      (bs more : List ℕ)
      → Fits base done (string_bytes bs ++ more)
      → skip_loop (suc fuel) d (at base done (string_bytes bs ++ more) depth)
        ≡ skip_loop fuel d (at base (done ++ string_bytes bs) more depth)
  unfolding skip_loop
  skip_string bs more f =
      let n : length bs + string_mark < 2 ^ 64 =
        omega (arith, length-append (string_bytes bs) more, string_bytes_nonempty bs) in
      ground (
        arith,
        read_string-at base done depth bs more f,
        reader_next_string base done depth bs more n,
      )

  skip_array :
      (more : List ℕ)
      → Fits base done (array_begin ∷ more)
      → skip_loop (suc fuel) d (at base done (array_begin ∷ more) depth)
        ≡ skip_loop fuel (d + 1) (at base (done ++ array_begin ∷ []) more (depth + 1))
  unfolding skip_loop reader_next
  skip_array more f = ground (arith, read_array-at base done depth more f)

  skip_array_end :
      (more : List ℕ)
      → Fits base done (array_end ∷ more)
      → skip_loop (suc fuel) (d + 1) (at base done (array_end ∷ more) (depth + 1))
        ≡ skip_loop fuel d (at base (done ++ array_end ∷ []) more depth)
  unfolding skip_loop reader_next
  skip_array_end more f = ground (arith, read_array_end-at base done depth more f)

  skip_stops :
      (more : List ℕ)
      → skip_loop (suc fuel) 0 (at base done (array_end ∷ more) depth)
        ≡ ok (at base done (array_end ∷ more) depth)
  unfolding skip_loop reader_next
  skip_stops more = ground arith

mutual
  unfolding rounds rounds_items encode encode_items

  skip_item :
      (x : Item) (base : ℕ) (done more : List ℕ) (depth fuel rest d : ℕ)
      → fuel ≡ rounds x + rest
      → Fits base done (encode x ++ more)
      → skip_loop fuel d (at base done (encode x ++ more) depth)
        ≡ skip_loop rest d (at base (done ++ encode x) more depth)
  skip_item (str bs) base done more depth fuel rest d e f =
      let e' : fuel ≡ suc rest = omega arith in rw e' (skip_string base done depth rest d bs more f)
  skip_item (arr xs) base done more depth fuel rest d e f =
      let mid = done ++ array_begin ∷ [] in
      let tail = array_end ∷ more in
      let split : (encode_items xs ++ array_end ∷ []) ++ more ≡ encode_items xs ++ tail =
        append_assoc (encode_items xs) (array_end ∷ []) more in
      let join : (mid ++ encode_items xs) ++ array_end ∷ []
          ≡ done ++ array_begin ∷ (encode_items xs ++ array_end ∷ []) =
        append_assoc mid (encode_items xs) (array_end ∷ [])
        ∙ append_assoc done (array_begin ∷ []) (encode_items xs ++ array_end ∷ []) in
      let inner = rounds_items xs + suc rest in
      let e' : fuel ≡ suc inner = omega arith in
      let fit : base + length done + (1 + length (encode_items xs) + length tail) < 2 ^ 63 =
        omega (arith, ap (λ (t : List ℕ). length t) split, length-append (encode_items xs) tail) in
      rw (e', split, ← join)
        (skip_array base done depth inner d (encode_items xs ++ tail)
            (omega (arith, length-append (encode_items xs) tail))
          ∙ skip_items xs base mid tail (depth + 1) inner (suc rest) (d + 1) refl (
              omega (
                arith,
                length-append (encode_items xs) tail,
                length-append done (array_begin ∷ []),
              ))
          ∙ skip_array_end base (mid ++ encode_items xs) depth rest d more (
              omega (
                arith,
                length-append mid (encode_items xs),
                length-append done (array_begin ∷ []),
              )))

  skip_items :
      (xs : Items) (base : ℕ) (done more : List ℕ) (depth fuel rest d : ℕ)
      → fuel ≡ rounds_items xs + rest
      → Fits base done (encode_items xs ++ more)
      → skip_loop fuel d (at base done (encode_items xs ++ more) depth)
        ≡ skip_loop rest d (at base (done ++ encode_items xs) more depth)
  skip_items nil base done more depth fuel rest d e f =
      let e' : fuel ≡ rest = omega arith in rw (e', append-nil)
  skip_items (cons x xs) base done more depth fuel rest d e f =
      let split : (encode x ++ encode_items xs) ++ more ≡ encode x ++ (encode_items xs ++ more) =
        append_assoc (encode x) (encode_items xs) more in
      let len = ap (λ (t : List ℕ). length t) split in
      rw (split, ← append_assoc done (encode x) (encode_items xs))
        (skip_item x base done (encode_items xs ++ more) depth fuel (rounds_items xs + rest) d
            (omega arith) (omega (arith, len))
          ∙ skip_items xs base (done ++ encode x) more depth (rounds_items xs + rest) rest d refl (
              omega (
                arith,
                len,
                length-append done (encode x),
                length-append (encode x) (encode_items xs ++ more),
              )))

pub reader_skip-encode_items :
    (xs : Items) (base : ℕ) (done more : List ℕ) (depth : ℕ)
    → Fits base done (encode_items xs ++ array_end ∷ more)
    → reader_skip (at base done (encode_items xs ++ array_end ∷ more) depth)
      ≡ ok (at base (done ++ encode_items xs) (array_end ∷ more) depth)
unfolding reader_skip
reader_skip-encode_items xs base done more depth f =
    let rest = encode_items xs ++ array_end ∷ more in
    let left = length rest - rounds_items xs in
    let fuel : length rest + 1 ≡ rounds_items xs + suc left =
      omega (arith, rounds_items_le xs, length-append (encode_items xs) (array_end ∷ more)) in
    skip_items xs base done (array_end ∷ more) depth (length rest + 1) (suc left) 0 fuel f
    ∙ skip_stops base (done ++ encode_items xs) depth left 0 more
