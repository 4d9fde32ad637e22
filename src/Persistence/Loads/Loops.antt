-- ===== src/Persistence/Loads/Loops.antt =====
-- The loop over the elements of an array ends, and does what its elements say.
use hybrid_databases.Base.{
  ℕ, zero, suc, ◌≤◌, ◌<◌, refl, arith, List, [], ◌∷◌, length, length-append, append-nil,
}
use hybrid_databases.Storage.Format.{array_end}
use hybrid_databases.Storage.Reader.{reader_next}
use hybrid_databases.Storage.Items.{Items, arr, encode, encode_items}
use hybrid_databases.Persistence.Emitting.{arrays}
use hybrid_databases.Persistence.Loading.{changes, ArePossible, Load, Store}
use hybrid_databases.Persistence.Loading.Reading.{ReadsAll, ReadsAll-bind, Reads-array}
use hybrid_databases.Persistence.Loads.{loop_in_array, while_in_array}

-- Things that stand in the file as arrays `parts x`, and that `body` reads one at a time.
module _ {X : Type 0} (body : Load (Unit {0})) (parts : X → Items) (change : X → Store → Store)
    (IsPossible : Store → X → Type 0)
    (reads : (x : X) (S : Store)
      → IsPossible S x
      → ReadsAll (array_end ∷ []) body (parts x) tt S (change x S)) where
  loop_reads :
      (xs : List X) (S : Store) (fuel : ℕ)
      → ArePossible change IsPossible S xs
      → length xs < fuel
      → ReadsAll
          (array_end ∷ [])
          (loop_in_array fuel body)
          (arrays parts xs)
          tt
          S
          (changes change xs S)
  unfolding encode_items encode loop_in_array reader_next
  loop_reads xs S zero h k = elim k [ ]
  loop_reads [] S (suc fuel) h k = record {
    loads = λ d. record { run = λ base done more f. rw append-nil refl };
  }
  loop_reads (x ∷ xs) S (suc fuel) h k =
      let rest = loop_reads xs (change x S) fuel h.1 (omega arith) in
      let first = Reads-array (reads x S h.0) in
      let all = ReadsAll-bind (λ u. loop_in_array fuel body) first rest in
      record {
        loads = λ d. record { run = λ base done more f. (all.loads d).run base done more f };
      }

  length-arrays : (xs : List X) → length xs ≤ length (encode_items (arrays parts xs))
  unfolding encode_items encode
  length-arrays [] = omega arith
  length-arrays (x ∷ xs) = omega (
    arith,
    length-arrays xs,
    length-append (encode (arr (parts x))) (encode_items (arrays parts xs)),
  )

  -- The rounds are enough, and the changes are made in the order of the elements.
  pub while_in_array-ReadsAll :
      (xs : List X) (S : Store)
      → ArePossible change IsPossible S xs
      → ReadsAll (array_end ∷ []) (while_in_array body) (arrays parts xs) tt S (changes change xs S)
  unfolding while_in_array
  while_in_array-ReadsAll xs S h = record {
    loads = λ d. record {
      run = λ base done more f.
          ((loop_reads xs S _ h (
                omega (
                  arith,
                  length-arrays xs,
                  length-append (encode_items (arrays parts xs)) (array_end ∷ more),
                ))).loads
              d).run
            base done more f;
    };
  }
