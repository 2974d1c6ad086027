-- ===== src/Application.antt =====
-- `run` of sqelf/src/main.rs puts the parts together: the receiver decodes what the server reads, and
-- the server gives its messages to the processor, which prints events. Here they serve UDP datagrams.
pub mod Printed
pub mod Delivered
pub mod Start
pub mod Streamed
use Prim.Native.String.{String}
use seq_input_gelf.Common.{ℕ, Bool, true, false, List, [], ◌∷◌, ◌++◌, Option, none, some}
use seq_input_gelf.Receive.Outcome.{Bytes}
use seq_input_gelf.Receive.Message.{Message}
use seq_input_gelf.Receive.Readable.{Reading, readable}
use seq_input_gelf.Receive.Gelf.{Gelf, Readings}
use seq_input_gelf.Receive.Gelf as Decoder
use seq_input_gelf.Process.Json.{Json}
use seq_input_gelf.Process.Clef
use seq_input_gelf.Process.Run
use seq_input_gelf.Process.Run.{Parsers, read_as_clef}
use seq_input_gelf.Process.ToClef.{Given}
use seq_input_gelf.Server.Udp
use seq_input_gelf.Server.Received.{Received}
use seq_input_gelf.Server.Loop.{Event, received}

-- A datagram, and the readings of the clock while it is decoded.
abbrev pub Datagram : Type 0
Datagram = Readings × Bytes

-- What the loop of the server sees of an item of the stream.
abbrev pub as_events : Option Received → List Event
as_events none = []
as_events (some x) = received x ∷ []

-- `|src| receive.decode(src)` under the decoder of datagrams: what the server's stream gives.
unfoldable pub receive : Datagram → Gelf → Gelf × List Event
unfolding Udp.decode
receive (now, src) g =
    let (rest, (g', item)) = Udp.decode (Decoder.decode now) src g in (g', as_events item)

unfoldable pub incoming : List Datagram → Gelf → List Event
incoming [] g = []
incoming (d ∷ ds) g = let r = receive d g in r.1 ++ incoming ds r.0

-- The processor's metric and the lines that it has printed.
abbrev pub Processor : Type 0
Processor = ℕ × List String

module _ (J : Json) {Time Decimal : Type 0} (p : Parsers J.Value Decimal) (d : Reading)
    (given : Given J.Value Time Decimal) (to_string : Clef.Message J.Value Time → Option String)
    (config : Run.Config) (min_level : ℕ) where
  -- `|msg| process.read_as_clef(msg)`; `true` stands for `Ok(())`.
  unfoldable pub process : Message → Processor → Processor × Bool
  unfolding read_as_clef
  process msg s =
      let (s', result) =
        read_as_clef J (readable d) p given to_string (Run.build config) min_level msg s in
      (s', elim result [ Run.ok _ ↦ true | Run.err _ ↦ false ])
