-- ===== src/Receive/Header.antt =====
-- `ChunkHeader` of sqelf/src/receive.rs, and the encoder of chunks that its tests use.
pub mod RoundTrip
use seq_input_gelf.Common.{
  ℕ, zero, suc, ◌+◌, ◌*◌, ◌/◌, ◌%◌, List, [], ◌∷◌, ◌++◌, ltb, leb, if◌then◌else◌, length, take,
  drop,
}
use seq_input_gelf.Receive.Outcome.{Bytes, Error, Result, ok, err}

pub record ChunkHeader : Type 0 where
  pub id : ℕ
  pub seq_num : ℕ
  pub seq_count : ℕ

-- `ChunkHeader::SIZE`.
abbrev pub size : ℕ
size = 12

-- `get_u8` and `get_u64` at an offset of the twelve bytes that were split off: big-endian.
abbrev pub byte_at : Bytes → ℕ → ℕ
byte_at [] i = 0
byte_at (b ∷ bs) zero = b
byte_at (b ∷ bs) (suc i) = byte_at bs i

unfoldable pub from_be : ℕ → Bytes → ℕ
from_be acc [] = acc
from_be acc (b ∷ bs) = from_be (acc * 256 + b) bs

-- The fields of the header, once its length is checked. The number in the error is a `u8` sum.
unfoldable pub read_fields : Bytes → Result ChunkHeader
read_fields buf =
    let seq_num = byte_at buf 10 in
    let seq_count = byte_at buf 11 in
    if leb seq_count seq_num
    then err (Error.bad_sequence seq_count ((seq_num + 1) % 256))
    else ok
        (record { id = from_be 0 (take 8 (drop 2 buf)); seq_num = seq_num; seq_count = seq_count })

-- `ChunkHeader::get`: the header, and the buffer behind it.
unfoldable pub get : Bytes → Result (ChunkHeader × Bytes)
unfolding read_fields
get src =
    if ltb (length src) size
    then err Error.too_small
    else elim (read_fields (take size src)) [ ok h ↦ ok (h, drop size src) | err e ↦ err e ]

-- `BigEndian::write_u64`, for any width.
unfoldable pub to_be : ℕ → ℕ → Bytes
to_be zero n = []
to_be (suc w) n = to_be w (n / 256) ++ (n % 256) ∷ []

-- A chunk as a client sends it: the magic bytes, the id, the sequence number and count, the data.
unfoldable pub chunk : ℕ → ℕ → ℕ → Bytes → Bytes
unfolding to_be
chunk id seq_num seq_total bytes = 0x1e ∷ 0x0f ∷ (to_be 8 id ++ seq_num ∷ seq_total ∷ bytes)
