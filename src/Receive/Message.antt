-- ===== src/Receive/Message.antt =====
-- `Message` of sqelf/src/receive.rs: a complete message, still in the pieces that it came in.
use seq_input_gelf.Common.{List, [], ◌∷◌, Option, none, some, ◌==◌, if◌then◌else◌, length}
use seq_input_gelf.Receive.Outcome.{Bytes, and_then}
use seq_input_gelf.Receive.Compression.{Compression, detect, peek_magic_bytes}

pub data Message : Type 0 where
  single : Option Compression → Bytes → Message
  chunked : List Bytes → Message

-- `Message::single`.
unfoldable pub new_single : Option Compression → Bytes → Option Message
new_single compression src = if length src == 0 then none else some (single compression src)

-- `Message::chunked`.
unfoldable pub new_chunked : List Bytes → Option Message
new_chunked chunks = if length chunks == 0 then none else some (chunked chunks)

-- `magic.and_then(Compression::detect)` on a buffer.
unfoldable pub detect_bytes : Bytes → Option Compression
unfolding detect peek_magic_bytes
detect_bytes src = and_then (peek_magic_bytes src) detect

-- `Message::compression`: a chunked message is judged by its first chunk.
unfoldable pub compression : Message → Option Compression
unfolding detect_bytes
compression (single c bytes) = c
compression (chunked []) = none
compression (chunked (chunk ∷ rest)) = detect_bytes chunk

-- `MemRead::bytes`: a message that can be parsed where it lies.
unfoldable pub bytes : Message → Option Bytes
bytes (single none src) = some src
bytes (single (some c) src) = none
bytes (chunked chunks) = none
