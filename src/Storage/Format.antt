-- ===== src/Storage/Format.antt =====
-- storage/storage.h: the control bytes of the format and the results of a read.
use hybrid_databases.Base.{ℕ}

-- `ST_ARRAY_BEGIN` and the others, without their prefix
abbrev pub array_begin : ℕ
array_begin = 0x01

abbrev pub array_end : ℕ
array_end = 0x03

abbrev pub dot : ℕ
dot = 0x02

abbrev pub len_begin : ℕ
len_begin = 0x07

abbrev pub len_end : ℕ
len_end = 0x09

abbrev pub crc_mark : ℕ
crc_mark = 0x04

abbrev pub string_mark : ℕ
string_mark = 16

-- `ST_ERROR`, which only `reader_next` returns
abbrev pub error_mark : ℕ
error_mark = 15

-- `ST_READ_SUCCESS` carries the bytes read; see `Reader.Files`.
pub data ReadStatus {ℓ} (A : Type ℓ) : Type ℓ where
  read_fail : ReadStatus A
  read_success : A → ReadStatus A
  read_end_of_file : ReadStatus A
