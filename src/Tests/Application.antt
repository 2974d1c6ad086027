-- ===== src/Tests/Application.antt =====
-- The parts of sqelf/src/main.rs put together: three datagrams of two messages, and a stream in reads.
use Prim.Native.String.{String}
use seq_input_gelf.Common.{ℕ, ◌≡◌, refl, false, [], ◌∷◌, Option, some, arith}
use seq_input_gelf.Common.HashMap
use seq_input_gelf.Common.Entries.{Has}
use seq_input_gelf.Receive.Message.{chunked, compression, detect_bytes}
use seq_input_gelf.Receive.Compression.{detect, peek_magic_bytes}
use seq_input_gelf.Receive.Reader.Stream.{body, concat}
use seq_input_gelf.Receive.Contents.{inflate}
use seq_input_gelf.Receive.Contents as Contents
use seq_input_gelf.Receive.Contents.Laws.{contents_lem}
use seq_input_gelf.Receive.Gelf.Slot.{pending}
use seq_input_gelf.Receive.Gelf.Delivery.{mine}
use seq_input_gelf.Receive.Gelf as Gelf
use seq_input_gelf.Process.Clef
use seq_input_gelf.Process.Run
use seq_input_gelf.Process.Run.{of_bytes}
use seq_input_gelf.Server.Loop
use seq_input_gelf.Server.Loop.Counted.{process_all, started}
use seq_input_gelf.Server.Received.{into_received}
use seq_input_gelf.Server.Tcp.Decode.{decode, new, next_frame, position, finish}
use seq_input_gelf.Server.Tcp.Decode.Segments.{frames}
use seq_input_gelf.Server.Tcp.Decode.Stream
use seq_input_gelf.Server.Tcp.Decode.Stream.{arrived, opened}
use seq_input_gelf.Application.Streamed.{events_of, decoded, streamed-processes}
use seq_input_gelf.Application.Delivered.{printed, deliver-prints}
use seq_input_gelf.Tests.Receive.{
  fresh, deliveries, pieces, contents, all_quiet, pieces-IsWhole, sent,
}
use seq_input_gelf.Tests.Values.{values, given, envelope}
use seq_input_gelf.Tests.Contents.{parsers, reading, utf8}
use seq_input_gelf.Tests.Server.{metrics, receive, reads, items, settled, process}

streamed-processes_example :
    (Loop.run process (events_of items) (started metrics [])).processor
    ≡ process_all process (decoded receive (frames 3 false (arrived reads)) 0) []
unfolding new opened Stream.run decode next_frame position finish into_received
streamed-processes_example =
    streamed-processes receive process 3 metrics metrics 0 [] reads settled items refl refl

-- An event is written as a line, whatever is in it.
abbrev to_string : Clef.Message values.Value ℕ → Option String
to_string clef = some "an event"

contents_plain : Contents.contents reading.inflates 3 (chunked contents) ≡ some (3 ∷ 4 ∷ 5 ∷ [])
unfolding inflate compression detect_bytes peek_magic_bytes detect body concat
contents_plain = contents_lem reading.inflates 3 (chunked contents) (omega arith)

deliver-prints_example : Has "an event" (
    printed values parsers reading given to_string Run.default_config 0 deliveries fresh metrics
      (0, []))
unfolding mine pending Gelf.new of_bytes HashMap.get
deliver-prints_example =
    deliver-prints values parsers reading given to_string Run.default_config 0 7 deliveries pieces
      contents fresh (3 ∷ 4 ∷ 5 ∷ []) "text" "an event" envelope metrics (0, []) all_quiet refl refl
      pieces-IsWhole (omega arith) sent contents_plain (utf8 (3 ∷ 4 ∷ 5 ∷ [])) refl refl
