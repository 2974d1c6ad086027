-- ===== src/Receive/Compression.antt =====
-- `Compression` of sqelf/src/receive.rs: the compression that two magic bytes announce.
use seq_input_gelf.Common.{
  ℕ, ◌+◌, ◌*◌, ◌%◌, Bool, ◌&&◌, [], ◌∷◌, Option, none, some, ◌==◌, if◌then◌else◌,
}
use seq_input_gelf.Receive.Outcome.{Bytes}

pub data Compression : Type 0 where
  gzip zlib : Compression

abbrev pub magic_chunked : ℕ × ℕ
magic_chunked = (0x1e, 0x0f)

abbrev pub magic_gzip : ℕ × ℕ
magic_gzip = (0x1f, 0x8b)

abbrev pub magic_zlib : ℕ
magic_zlib = 0x78

-- `==` on `[u8; 2]`.
abbrev pub same_magic : ℕ × ℕ → ℕ × ℕ → Bool
same_magic a b = a.0 == b.0 && a.1 == b.1

-- `Compression::detect`; the shifted sum of two bytes fits in sixteen bits.
unfoldable pub detect : ℕ × ℕ → Option Compression
detect header =
    if same_magic header magic_gzip
    then some gzip
    else (if header.0 == magic_zlib && (header.0 * 256 + header.1) % 31 == 0
        then some zlib
        else none)

-- `Message::peek_magic_bytes`.
unfoldable pub peek_magic_bytes : Bytes → Option (ℕ × ℕ)
peek_magic_bytes [] = none
peek_magic_bytes (a ∷ []) = none
peek_magic_bytes (a ∷ b ∷ rest) = some (a, b)
