-- ===== src/Storage/Rescuer.antt =====
-- storage/rescuer.c: copies a data file, root element by root element, up to the first bad one.
pub mod Steps
pub mod Copies
use hybrid_databases.Base.{
  ℕ, zero, suc, ◌+◌, ◌-◌, ◌≤◌, ◌==◌, Option, none, some, Bool, true, false, List, [], ◌∷◌, ◌++◌,
  length, if◌then◌else◌,
}
use hybrid_databases.Storage.Format.{
  array_begin, array_end, dot, crc_mark, string_mark, ReadStatus, read_fail, read_success,
  read_end_of_file,
}
use hybrid_databases.Storage.Writer.{
  Writer, write_array, write_array_end, write_string, writer_finish, writer_output, writer_discart,
}
use hybrid_databases.Storage.Reader.{
  Reader, Outcome, ok, fail, fault, ◌>>=◌, ◌>>◌, reader_next, read_array, read_array_end,
  read_string, reader_finish,
}
use hybrid_databases.Storage.Reader.Files.{reader_begin}

-- A fault of the writer is a fault.
abbrev pub lift {ℓ} : {A : Type ℓ} → Option A → Outcome A
lift none = fault
lift (some a) = ok a

-- The `do ... while (indent != 0)` of `process_element`. Each round takes a byte at least. At
-- indent 0 an array end meets the assertion of `write_array_end`, before `indent--`.
unfoldable pub copy_loop : ℕ → ℕ → Reader → Writer → Outcome (Reader × Writer)
copy_loop zero indent R W = fault
copy_loop (suc fuel) indent R W =
    let opened = (do
      W1 ← lift (write_array W)
      R1 ← read_array R
      copy_loop fuel (indent + 1) R1 W1) in
    let closed = (do
      W1 ← lift (write_array_end W)
      R1 ← read_array_end R
      let more = copy_loop fuel (indent - 1) R1 W1
      (if indent - 1 == 0 then ok (R1, W1) else more)) in
    let copied = (do
      (bs, R1) ← read_string R
      W1 ← lift (write_string W bs)
      let more = copy_loop fuel indent R1 W1
      (if indent == 0 then ok (R1, W1) else more)) in
    let next = reader_next R in
    if next == array_begin
    then opened
    else if next == array_end
    then closed
    else if next == string_mark
    then copied
    else fail

unfoldable pub process_element : Reader → Writer → Outcome Writer
process_element R W = do
  (R1, W1) ← copy_loop (length R.rest + 1) 0 R W
  let next = reader_next R1
  (if next == dot
      then (do reader_finish R1 false; lift (writer_finish W1 false))
      else if next == crc_mark
      then (do reader_finish R1 true; lift (writer_finish W1 true))
      else fail)

-- `main`: what is written to the standard output, for a writer that is empty between the rounds.
-- Every root element takes ten bytes at least, so the file bounds the rounds.
unfoldable pub rescue_loop : ℕ → ℕ → List ℕ → Writer → Outcome (List ℕ)
rescue_loop zero base file W = fault
rescue_loop (suc fuel) base file W =
    let (status, file1) = reader_begin base file in
    elim status [
      | read_end_of_file ↦ ok []
      | read_fail ↦ ok []
      | read_success R ↦ elim (process_element R W) [
        | fail ↦ ok []
        | fault ↦ fault
        | ok W1 ↦ (do
          out ← lift (writer_output W1)
          rest ← rescue_loop fuel base file1 (writer_discart W1)
          ok (out ++ rest))
      ]
    ]
