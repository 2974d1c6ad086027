-- ===== src/Receive/Readable.antt =====
-- `impl MemRead for Message` of sqelf/src/receive.rs.
use seq_input_gelf.Common.{ℕ, ◌<◌, ◌≡◌, ◌∙◌, none, some}
use seq_input_gelf.Io.{MemRead}
use seq_input_gelf.Receive.Outcome.{Bytes}
use seq_input_gelf.Receive.Message.{Message, single, chunked, bytes, compression}
use seq_input_gelf.Receive.Reader.Stream.{body}
use seq_input_gelf.Receive.Contents.{Inflate, contents, inflate}
use seq_input_gelf.Receive.Contents.Laws.{contents_lem}

-- How messages are read: the decoders of libflate, and the size of the buffer of each read, which holds
-- something.
pub record Reading : Type 0 where
  pub inflates : Inflate
  pub buffer : ℕ
  pub room : 0 < buffer

pub bytes-contents :
    (d : Reading) (m : Message) (src : Bytes)
    → bytes m ≡ some src
    → contents d.inflates d.buffer m ≡ some src
unfolding bytes compression body inflate
bytes-contents d (single none whole) src h =
    contents_lem d.inflates d.buffer (single none whole) d.room ∙ h
bytes-contents d (single (some c) whole) src h = absurd (cc (h))
bytes-contents d (chunked chunks) src h = absurd (cc (h))

abbrev pub readable : Reading → MemRead
readable d = record {
  Carrier = Message;
  bytes = bytes;
  into_reader = contents d.inflates d.buffer;
  bytes-into_reader = bytes-contents d;
}
