-- ===== src/Io.antt =====
-- sqelf/src/io.rs: what the processor asks of a message, as an interface, and the slices of bytes that
-- implement it. That messages do is in Receive/Readable.antt.
use seq_input_gelf.Common.{◌≡◌, Option, some}
use seq_input_gelf.Receive.Outcome.{Bytes}

-- `MemRead`. Its reader is only ever read to the end, so what that gives stands for it. What lies in one
-- piece is what its reader gives, too.
pub record MemRead : Type 1 where
  pub Carrier : Type 0
  pub bytes : Carrier → Option Bytes
  pub into_reader : Carrier → Option Bytes
  pub bytes-into_reader :
      (m : Carrier) (src : Bytes) → bytes m ≡ some src → into_reader m ≡ some src

-- `impl MemRead for &[u8]`: a cursor gives all the bytes.
abbrev pub slices : MemRead
slices = record {
  Carrier = Bytes;
  bytes = λ src. some src;
  into_reader = λ src. some src;
  bytes-into_reader = λ m src h. h;
}
