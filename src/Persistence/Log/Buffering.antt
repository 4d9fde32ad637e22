-- ===== src/Persistence/Log/Buffering.antt =====
-- The buffered file receives every byte, in order.
use hybrid_databases.Base.{
  ℕ, ◌+◌, ◌/◌, ◌^◌, ◌≤◌, ◌≡◌, refl, sym, ap, ◌∙◌, arith, Bool-cases, inl, inr, Option, some, List,
  [], ◌∷◌, ◌++◌, length, length-append, append-nil, append_assoc, leb, ltb, ◌==◌,
}
use hybrid_databases.Storage.Writer.{
  Writer, ptr, ensure_space, writer_output, writer_discart, writer_direct_write,
}
use hybrid_databases.Storage.Writer.Bounds.{IsValid, Ensures, ensure_space-Ensures}
use hybrid_databases.Persistence.Log.{
  write_buffer_size, flush, direct_write, buffered_write, buffered_sync,
}
use hybrid_databases.Persistence.Log.Emitted.{IsIdle}

-- A writer between two elements takes bytes in without a change of them.
pub writer_direct_write_lem :
    {W : Writer} (buffer : List ℕ)
    → IsIdle W
    → ptr W + length buffer ≤ 2 ^ 61
    → (W' : Writer) × (writer_direct_write W buffer ≡ some W')
      × IsIdle W'
      × (W'.sealed ≡ W.sealed ++ buffer)
unfolding writer_direct_write
writer_direct_write_lem {W} buffer idle h =
    let v : IsValid W = idle.valid in
    let e : Ensures W (length buffer) (ensure_space W (length buffer)) =
      ensure_space-Ensures (length buffer) v h in
    let W1 = ensure_space W (length buffer) in
    let c = idle.cur in
    let d = idle.depth in
    (
      record W1 { sealed = W1.sealed ++ buffer },
      ground arith,
      ground (arith, length-append W1.sealed buffer),
      ground arith,
    )

length-eq-zero : (xs : List ℕ) → length xs ≡ 0 → xs ≡ []
length-eq-zero [] h = refl
length-eq-zero (x ∷ xs) h = absurd (omega arith)

-- The writer between two elements, not above the limit of the buffer.
pub record IsBuffer (W : Writer) : Type 0 where
  pub idle : IsIdle W
  pub limit : length W.sealed ≤ write_buffer_size

-- A step that succeeds and puts `buffer` behind the bytes of the file and of the writer.
abbrev pub Accepted : Writer → List ℕ → List ℕ → Option (Writer × List ℕ) → Type 0
Accepted W file buffer o =
    (W' : Writer) × (file' : List ℕ) × (o ≡ some (W', file'))
    × IsBuffer W'
    × (file' ++ W'.sealed ≡ (file ++ W.sealed) ++ buffer)

direct_write-Accepted :
    {W : Writer} (file buffer : List ℕ)
    → IsBuffer W
    → length W.sealed + length buffer ≤ write_buffer_size
    → Accepted W file buffer (direct_write buffer (W, file))
unfolding direct_write
direct_write-Accepted {W} file [] b h = (W, file, refl, b, sym (append-nil (file ++ W.sealed)))
direct_write-Accepted {W} file (x ∷ buffer) b h =
    let i = b.idle in
    let empty : length W.cur ≡ 0 = ap (λ (t : List ℕ). length t) i.cur in
    let (W', e, idle, s) = writer_direct_write_lem (x ∷ buffer) i (omega arith) in
    (
      W',
      file,
      rw e refl,
      record {
        idle = idle;
        limit = omega (arith, ap (λ (t : List ℕ). length t) s, length-append W.sealed (x ∷ buffer));
      },
      rw s (sym (append_assoc file W.sealed (x ∷ buffer))),
    )

module _ {W : Writer} (i : IsIdle W) where
  output : writer_output W ≡ some W.sealed
  unfolding writer_output
  output = let c = i.cur in rw c refl

  discarded : IsBuffer (writer_discart W)
  unfolding writer_discart
  discarded = let v : IsValid W = i.valid in let c = i.cur in let d = i.depth in ground arith

  emptied : (writer_discart W).sealed ≡ []
  unfolding writer_discart
  emptied = refl

  -- A write of nothing only brings the writer below its limit.
  pub buffered_write-nil : (file : List ℕ) → Accepted W file [] (buffered_write [] (W, file))
  unfolding buffered_write direct_write
  buffered_write-nil file = elim (Bool-cases (leb (length W.sealed + 0) write_buffer_size)) [
    | inl fits ↦
        rw (output, fits)
          (
            W,
            file,
            refl,
            record { idle = i; limit = ground arith },
            sym (append-nil (file ++ W.sealed)),
          )
    | inr full ↦
        rw (output, full) (writer_discart W, file ++ W.sealed, refl, discarded, rw emptied refl)
  ]

  -- A synchronisation leaves nothing in the writer and all of it in the file.
  pub buffered_sync_lem :
      (file : List ℕ)
      → (W' : Writer) × (buffered_sync (W, file) ≡ some (W', file ++ W.sealed))
        × IsBuffer W'
        × (W'.sealed ≡ [])
  unfolding buffered_sync flush
  buffered_sync_lem file = elim (Bool-cases (length W.sealed == 0)) [
    | inl empty ↦
        let none_left : W.sealed ≡ [] = length-eq-zero W.sealed (ground arith) in
        rw (output, empty)
          (W, rw (none_left, append-nil) refl, record { idle = i; limit = ground arith }, none_left)
    | inr more ↦ rw (output, more) (writer_discart W, refl, discarded, emptied)
  ]

module _ {W : Writer} (file : List ℕ) (b : IsBuffer W) where
  -- With at most 4096 bytes in the writer, a buffer of any length is taken: the file and the
  -- writer behind it hold the bytes that they held and then those of the buffer, and the writer
  -- holds 4096 bytes at most again.
  pub buffered_write_lem :
      (buffer : List ℕ) → Accepted W file buffer (buffered_write buffer (W, file))
  unfolding buffered_write
  buffered_write_lem buffer =
      elim (Bool-cases (leb (length W.sealed + length buffer) write_buffer_size)) [
        | inl fits ↦ rw (output b.idle, fits) (direct_write-Accepted file buffer b (ground arith))
        | inr full ↦ elim (Bool-cases (ltb (write_buffer_size / 2) (length buffer))) [
          | inl long ↦
              rw (output b.idle, full, long)
                (
                  writer_discart W,
                  (file ++ W.sealed) ++ buffer,
                  refl,
                  discarded b.idle,
                  rw (emptied b.idle) (append-nil ((file ++ W.sealed) ++ buffer)),
                )
          | inr short ↦
              let (W', file', e, b', s) =
                direct_write-Accepted (file ++ W.sealed) buffer (discarded b.idle)
                  (rw (emptied b.idle) (ground arith)) in
              rw (output b.idle, full, short)
                (W', file', e, b', s ∙ rw (emptied b.idle, append-nil) refl)
        ]
      ]
