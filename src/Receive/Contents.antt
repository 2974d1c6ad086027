-- ===== src/Receive/Contents.antt =====
-- A message read to its end (`Read::read_to_end` and `read_to_string` over `Message::into_reader` of
-- sqelf/src/receive.rs). The decoders of libflate are parameters: what they make of a whole stream.
pub mod Laws
pub mod Compressed
use seq_input_gelf.Common.{ℕ, zero, suc, ◌+◌, List, [], ◌∷◌, ◌++◌, Option, none, some, length}
use seq_input_gelf.Receive.Outcome.{Bytes}
use seq_input_gelf.Receive.Compression.{Compression}
use seq_input_gelf.Receive.Message.{Message, compression}
use seq_input_gelf.Receive.Reader.{ChunkRead, Read, done, panicked, out_of_fuel, read, open_msg}
use seq_input_gelf.Receive.Reader.Stream.{body}

-- What `gzip::Decoder` and `zlib::Decoder` give for a stream, or their error.
pub record Inflate : Type 0 where
  pub gunzip : Bytes → Option Bytes
  pub unzlib : Bytes → Option Bytes

-- Reads with a buffer of `n` bytes until one of them gives nothing.
unfoldable pub read_to_end : ℕ → ℕ → ChunkRead → Read Bytes
read_to_end zero n r = out_of_fuel
read_to_end (suc fuel) n r = elim (read n r) [
  | done ([], r') ↦ done []
  | done (b ∷ bs, r') ↦ elim (read_to_end fuel n r') [
    | done rest ↦ done ((b ∷ bs) ++ rest)
    | panicked ↦ panicked
    | out_of_fuel ↦ out_of_fuel
  ]
  | panicked ↦ panicked
  | out_of_fuel ↦ out_of_fuel
]

-- Each read but the last one gives a byte.
abbrev pub enough : Message → ℕ
enough msg = length (body msg) + 1

-- The decoder that `into_reader` puts over the message, read to the end.
unfoldable pub inflate : Inflate → Option Compression → Bytes → Option Bytes
inflate z none src = some src
inflate z (some Compression.gzip) src = z.gunzip src
inflate z (some Compression.zlib) src = z.unzlib src

-- The contents of a message, read with a buffer of `n` bytes; `none` is an error of a decoder. A panic
-- of the reader is no contents either.
unfoldable pub contents : Inflate → ℕ → Message → Option Bytes
unfolding read_to_end inflate
contents z n msg = elim (read_to_end (enough msg) n (open_msg msg)) [
  | done src ↦ inflate z (compression msg) src
  | panicked ↦ none
  | out_of_fuel ↦ none
]
