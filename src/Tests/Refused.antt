-- ===== src/Tests/Refused.antt =====
-- A datagram that the decoder of sqelf/src/receive.rs refuses: it says that its message has three
-- chunks, where an earlier one has said two.
use seq_input_gelf.Common.{◌≡◌, refl, ◌∷◌, [], true, nat_eq, nat_ord}
use seq_input_gelf.Common.HashMap
use seq_input_gelf.Common.BTreeMap
use seq_input_gelf.Receive.Outcome.{Bytes, Error, err}
use seq_input_gelf.Receive.Time.{timestamp_ord, duration_since_epoch, since, minus}
use seq_input_gelf.Receive.Header
use seq_input_gelf.Receive.Compression.{peek_magic_bytes}
use seq_input_gelf.Receive.Chunks
use seq_input_gelf.Receive.Gelf.Quiet.{datagram}
use seq_input_gelf.Receive.Gelf.Refused.{decode-refuses}
use seq_input_gelf.Receive.Gelf.{
  Gelf, new, decode, push, gc, clear_if_full, count_chunk, remove_expired,
  chunked as decode_chunked, is_chunk, dispatch, begin, admit, ts, join, remove_all,
}
use seq_input_gelf.Tests.Receive.{at, after_second}

abbrev inconsistent : Bytes
inconsistent =
    datagram (record {
      now = at 1;
      header = record { id = 7; seq_num = 0; seq_count = 3 };
      bytes = 3 ∷ [];
    })

abbrev refused : Gelf
refused = (decode (at 1) inconsistent after_second).0

answered : decode (at 1) inconsistent after_second ≡ (refused, err (Error.inconsistent_total 3 2))
unfolding new decode decode_chunked is_chunk peek_magic_bytes gc clear_if_full remove_expired since
    minus duration_since_epoch Header.get Header.read_fields Header.from_be Header.chunk
    Header.to_be dispatch push remove_all begin admit ts join HashMap.get HashMap.insert
    HashMap.remove BTreeMap.range_below BTreeMap.insert BTreeMap.remove BTreeMap.get Chunks.new
    Chunks.insert Chunks.is_complete
answered = refl

decode-refuses_example :
    (is_chunk inconsistent ≡ true)
    × (refused
        ≡ (gc (at 1).at_gc (record after_second { metrics = count_chunk after_second.metrics })).0)
decode-refuses_example =
    decode-refuses (at 1) inconsistent after_second refused (Error.inconsistent_total 3 2) answered
