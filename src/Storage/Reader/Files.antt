-- ===== src/Storage/Reader/Files.antt =====
-- Root elements from a file: `file_reader_read`, `read_header` and `reader_begin` of reader.c.
use hybrid_databases.Base.{ℕ, List, [], length, ◌==◌, if◌then◌else◌, take, drop, ◌&&◌, get_or}
use hybrid_databases.Storage.Format.{
  len_begin, len_end, ReadStatus, read_fail, read_success, read_end_of_file,
}
use hybrid_databases.Storage.Reader.{Reader, Outcome, ok, fail, fault, read_le}

-- The callback of a file reader: the file is what is left of it. A short read uses the file up.
unfoldable pub file_reader_read : List ℕ → ℕ → ReadStatus (List ℕ) × List ℕ
file_reader_read file len =
    let got = take len file in
    if length got == len
    then (read_success got, drop len file)
    else if length got == 0
    then (read_end_of_file, [])
    else (read_fail, [])

-- `read_header`: the length that a header of ten bytes holds
unfoldable pub read_header : List ℕ → Outcome ℕ
read_header h =
    if get_or h 0 0 == len_begin && get_or h 9 0 == len_end then read_le (drop 1 h) 8 0 else fail

-- `reader_begin`; `base` is the address that `xmalloc` gives for the element's bytes.
unfoldable pub reader_begin : ℕ → List ℕ → ReadStatus Reader × List ℕ
reader_begin base file =
    let (status, file1) = file_reader_read file 10 in
    elim status [
      | read_end_of_file ↦ (read_end_of_file, file1)
      | read_fail ↦ (read_fail, file1)
      | read_success h ↦ elim (read_header h) [
        | ok len ↦ body len file1
        | fail ↦ (read_fail, file1)
        | fault ↦ (read_fail, file1)
      ]
    ]
  where
    body : ℕ → List ℕ → ReadStatus Reader × List ℕ
    body len file1 =
        let (status, file2) = file_reader_read file1 len in
        elim status [
          | read_success bytes ↦
              (read_success (record { base = base; done = []; rest = bytes; depth = 0 }), file2)
          | _ ↦ (read_fail, file2)
        ]
