-- ===== src/Application/Delivered.antt =====
-- From the datagrams of a message to the line that is printed of it.
use Prim.Native.String.{String}
use mathlib.Core.Path.{subst}
use seq_input_gelf.Common.{
  ℕ, zero, suc, ◌-◌, ◌<◌, ◌≡◌, refl, sym, ◌∙◌, ◌==◌, List, [], ◌∷◌, ◌++◌, Option, none, some, map,
  length, Bool-cases, inl, inr, get_elem?,
}
use seq_input_gelf.Common.Entries.{Has}
use seq_input_gelf.Receive.Outcome.{Bytes, Result, ok}
use seq_input_gelf.Receive.Message.{Message, chunked}
use seq_input_gelf.Receive.Header
use seq_input_gelf.Receive.Chunks.{Chunk}
use seq_input_gelf.Receive.Contents.{contents}
use seq_input_gelf.Receive.Gelf as Decoder
use seq_input_gelf.Receive.Gelf.{Gelf}
use seq_input_gelf.Receive.Gelf.Slot.{pending}
use seq_input_gelf.Receive.Gelf.Assembly.{payload, answers, IsWhole}
use seq_input_gelf.Receive.Gelf.Quiet.{Delivery, datagram}
use seq_input_gelf.Receive.Gelf.Delivery.{deliver, mine, AllQuiet}
use seq_input_gelf.Receive.Gelf.Recovered.{deliver-reads}
use seq_input_gelf.Receive.Readable.{Reading, readable}
use seq_input_gelf.Process.Json.{Json}
use seq_input_gelf.Process.Clef
use seq_input_gelf.Process.Gelf
use seq_input_gelf.Process.Run
use seq_input_gelf.Process.Run.{Parsers, of_bytes}
use seq_input_gelf.Process.Run.Transport.{IsUtf8, parse_message-contents}
use seq_input_gelf.Process.ToClef.{Given, to_clef}
use seq_input_gelf.Server.Udp
use seq_input_gelf.Server.Received.{Received, complete, incomplete, error, into_received}
use seq_input_gelf.Server.Metrics.{Metrics}
use seq_input_gelf.Server.Loop.{Event, run}
use seq_input_gelf.Server.Loop.Counted.{messages, started, run-processes}
use seq_input_gelf.Application.{Datagram, Processor, as_events, receive, incoming, process}
use seq_input_gelf.Application.Printed.{all-prints}

abbrev pub sent : Delivery → Datagram
sent d = (d.now, datagram d)

Has-answers : (k : ℕ) (m : Message) → Has (ok (some m)) (answers k m)
unfolding answers
Has-answers zero m = inl refl
Has-answers (suc k) m = inr (Has-answers k m)

-- An item of the stream adds a message or nothing.
Has-messages_append :
    (m : Message) (item : Option Received) (es : List Event)
    → Has m (messages es)
    → Has m (messages (as_events item ++ es))
unfolding messages
Has-messages_append m none es h = h
Has-messages_append m (some incomplete) es h = h
Has-messages_append m (some (complete x)) es h = inr h
Has-messages_append m (some (error e)) es h = h

Has-messages_now :
    (m : Message) (r : Result (Option Message)) (es : List Event)
    → ok (some m) ≡ r
    → Has m (messages (as_events (into_received r) ++ es))
unfolding messages into_received
Has-messages_now m r es e =
    subst (λ (x : Result (Option Message)). Has m (messages (as_events (into_received x) ++ es))) e
      (inl refl)

-- What the decoder answers to a chunk of a message is received by the server.
deliver-incoming :
    (id : ℕ) (m : Message) (ds : List Delivery) (g : Gelf)
    → Has (ok (some m)) (deliver id ds g).1
    → Has m (messages (incoming (map sent ds) g))
unfolding deliver incoming receive Udp.decode Header.chunk
deliver-incoming id m [] g h = elim h [ ]
deliver-incoming id m (d ∷ ds) g h =
    let r = Decoder.decode d.now (datagram d) g in
    let later = deliver-incoming id m ds r.0 in
    elim (Bool-cases (d.header.id == id)) [
      | inr other ↦ Has-messages_append m (into_received r.1) _ (later (rw other at h))
      | inl same ↦ elim (rw same at h) [
        | inl e ↦ Has-messages_now m r.1 _ e
        | inr h' ↦ Has-messages_append m (into_received r.1) _ (later h')
      ]
    ]

module _ (J : Json) {Time Decimal : Type 0} (p : Parsers J.Value Decimal) (d : Reading)
    (given : Given J.Value Time Decimal) (to_string : Clef.Message J.Value Time → Option String)
    (config : Run.Config) (min_level : ℕ) where
  -- The lines that the server has printed after it was sent the chunks.
  abbrev pub printed : List Delivery → Gelf → Metrics → Processor → List String
  printed ds g m s =
      let served =
        run (process J p d given to_string config min_level) (incoming (map sent ds) g)
          (started m s) in
      served.processor.1

  -- The pieces of a message, two or more, are sent as chunks, each piece under its number, and
  -- delivered over UDP in any order between the chunks of other messages, to a decoder that knows
  -- nothing of the message, is not full and lets none expire, while the clock is past the epoch. If the
  -- contents of the pieces, decompressed where they are compressed, are UTF-8 and parse as a GELF
  -- message whose event serializes to a line, then the server prints this line.
  pub deliver-prints :
      (id : ℕ) (ds : List Delivery) (cs : List Chunk) (pieces : List Bytes) (g : Gelf)
      → (src : Bytes) → (text line : String) → (gelf : Gelf.Message J.Value Decimal) → (m : Metrics)
      → (s : Processor) → AllQuiet ds g
      → pending id g ≡ none
      → mine id ds ≡ map (λ c. (length pieces, c)) cs
      → IsWhole (length pieces) cs
      → 1 < length pieces
      → ((i : ℕ) → payload i cs ≡ get_elem? pieces i)
      → contents d.inflates d.buffer (chunked pieces) ≡ some src
      → IsUtf8 p src text
      → of_bytes J p config.include_raw_payload src ≡ Run.ok gelf
      → to_string (to_clef J given gelf) ≡ some line
      → Has line (printed ds g m s)
  deliver-prints id ds cs pieces g src text line gelf m s quiet new these whole several same read
        utf8 parsed serial =
      let answered = (deliver-reads id ds cs pieces g [] quiet new these whole several same).0 in
      let there =
        subst (Has (ok (some (chunked pieces)))) (sym answered)
          (Has-answers (length pieces - 1) (chunked pieces)) in
      let got = deliver-incoming id (chunked pieces) ds g there in
      let es = incoming (map sent ds) g in
      subst (λ (q : Processor). Has line q.1)
        (sym (run-processes (process J p d given to_string config min_level) es m s))
        (all-prints J p d given to_string config min_level line (chunked pieces) gelf (messages es)
          s
          (parse_message-contents J p (readable d) config.include_raw_payload (chunked pieces) src
              text utf8 read
            ∙ parsed)
          serial got)
