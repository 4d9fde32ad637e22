-- ===== src/Storage/Rescuer/Copies.antt =====
-- The rescuer copies what is intact.
use hybrid_databases.Base.{
  ℕ, ◌+◌, ◌^◌, ◌≤◌, ◌<◌, ◌≡◌, ◌∙◌, arith, List, [], ◌∷◌, ◌++◌, length, length-append, some, Bool,
  true, false,
}
use hybrid_databases.Storage.Writer.{Writer, ptr, trailer, writer_finish}
use hybrid_databases.Storage.Writer.Bounds.{
  IsValid, root_bytes, writer_finish_lem, Appends-IsValid, ptr-Appends, trailer_bounds,
}
use hybrid_databases.Storage.Reader.{Reader, ok, reader_next}
use hybrid_databases.Storage.Reader.Lengths.{at}
use hybrid_databases.Storage.Items.{Item, encode}
use hybrid_databases.Storage.Rescuer.{copy_loop, process_element}
use hybrid_databases.Storage.Items.Writing.{write_item-Appended}
use hybrid_databases.Storage.Frames.{reader_finish_lem}
use hybrid_databases.Storage.Rescuer.Steps.{copy_root}

finish_copy :
    (x : Item) (base : ℕ) (checksum : Bool) (W : Writer) {W1 W2 : Writer}
    → copy_loop
        (length (encode x ++ trailer checksum (encode x)) + 1)
        0
        (at base [] (encode x ++ trailer checksum (encode x)) 0)
        W
      ≡ ok (at base (encode x) (trailer checksum (encode x)) 0, W1)
    → writer_finish W1 checksum ≡ some W2
    → base + length (encode x) + 6 < 2 ^ 63
    → process_element (at base [] (encode x ++ trailer checksum (encode x)) 0) W ≡ ok W2
unfolding process_element reader_next
finish_copy x base true W e w b = ground (arith, reader_finish_lem base true true (encode x) b)
finish_copy x base false W e w b = ground (arith, reader_finish_lem base false false (encode x) b)

-- `process_element` copies a root element: whatever element is read, with a checksum or without,
-- the bytes that come out behind those already in the writer are the element's own.
pub process_element-encode :
    (x : Item) (base : ℕ) (checksum : Bool) {W : Writer}
    → IsValid W
    → W.cur ≡ []
    → W.depth ≡ 0
    → ptr W + length (encode x) + 16 ≤ 2 ^ 61
    → base + length (encode x) + 6 < 2 ^ 63
    → (W' : Writer) × (process_element (at base [] (encode x ++ trailer checksum (encode x)) 0) W
        ≡ ok W')
      × (W'.sealed ≡ W.sealed ++ root_bytes checksum (encode x))
      × (W'.cur ≡ [])
      × (W'.depth ≡ 0)
      × IsValid W'
process_element-encode x base checksum {W} v c d h b =
    let (W1, e1, a) = write_item-Appended x v (omega arith) in
    let cur : W1.cur ≡ encode x = a.cur ∙ rw c in
    let (W2, e2, f) =
      writer_finish_lem checksum (Appends-IsValid a) (a.depth ∙ d) (omega (arith, ptr-Appends a)) in
    let fits : base + 0 + length (encode x ++ trailer checksum (encode x)) < 2 ^ 63 = omega (
      arith,
      length-append (encode x) (trailer checksum (encode x)),
      trailer_bounds checksum (encode x),
    ) in
    (
      W2,
      finish_copy x base checksum W (copy_root x base (trailer checksum (encode x)) W W1 e1 fits) e2
          b,
      f.sealed ∙ rw (a.sealed, cur),
      f.cur,
      f.depth,
      record { room = f.room; small = f.small },
    )

-- The root elements of a file, each with the choice of a checksum.
abbrev pub file_bytes : List (Bool × Item) → List ℕ
file_bytes [] = []
file_bytes ((checksum, x) ∷ roots) = root_bytes checksum (encode x) ++ file_bytes roots

-- An element that a buffer in the lower half of the address space can hold.
abbrev pub Holds : ℕ → Bool × Item → Type 0
Holds base (checksum, x) = base + length (encode x) + 26 ≤ 2 ^ 61

-- The writer of `main` between two elements.
pub record IsEmpty (W : Writer) : Type 0 where
  pub valid : IsValid W
  pub sealed : W.sealed ≡ []
  pub cur : W.cur ≡ []
  pub depth : W.depth ≡ 0
