-- ===== src/Application/Streamed.antt =====
-- The parts of sqelf/src/main.rs over a TCP connection: what arrives is cut into frames, decoded, and
-- processed by the loop of the server.
use seq_input_gelf.Common.{
  ℕ, ◌≡◌, refl, sym, ap, ◌∙◌, Bool, false, List, [], ◌∷◌, ◌++◌, Option, none, some,
}
use seq_input_gelf.Receive.Outcome.{Bytes, Result, ok, err}
use seq_input_gelf.Receive.Message.{Message}
use seq_input_gelf.Server.Received.{Received, into_received}
use seq_input_gelf.Server.Metrics.{Metrics}
use seq_input_gelf.Server.Loop
use seq_input_gelf.Server.Loop.Counted.{messages, process_all, started, run-processes}
use seq_input_gelf.Server.Tcp.Decode.{Connection, decode, item}
use seq_input_gelf.Server.Tcp.Decode.Segments.{frames}
use seq_input_gelf.Server.Tcp.Decode.Stream
use seq_input_gelf.Server.Tcp.Decode.Stream.{arrived, feed, opened, run-frames}
use seq_input_gelf.Application.{as_events}

unfoldable pub events_of : List (Option Received) → List Loop.Event
events_of [] = []
events_of (x ∷ xs) = as_events x ++ events_of xs

module _ {S : Type 0} (receive : Bytes → S → S × Result (Option Message)) where
  -- The messages that a receiver completes over frames.
  unfoldable pub decoded : List Bytes → S → List Message
  decoded [] s = []
  decoded (f ∷ fs) s =
      let (s', result) = receive f s in
      let rest = decoded fs s' in
      elim result [ ok (some msg) ↦ msg ∷ rest | ok none ↦ rest | err _ ↦ rest ]

  messages_one :
      (result : Result (Option Message)) (es : List Loop.Event) (rest : List Message)
      → messages es ≡ rest
      → messages (as_events (into_received result) ++ es)
        ≡ elim result [ ok (some msg) ↦ msg ∷ rest | ok none ↦ rest | err _ ↦ rest ]
  unfolding messages into_received
  messages_one (ok (some msg)) es rest h = ap (λ (l : List Message). msg ∷ l) h
  messages_one (ok none) es rest h = h
  messages_one (err e) es rest h = h

  messages-feed :
      (fs : List Bytes) (s : S) → messages (events_of (feed receive fs s).1) ≡ decoded fs s
  unfolding messages events_of feed decoded
  messages-feed [] s = refl
  messages-feed (f ∷ fs) s =
      let r = receive f s in
      messages_one r.1 (events_of (feed receive fs r.0).1) _ (messages-feed fs r.0)

  -- If a new connection that has run over any reads and polls asks for more bytes, then the loop of the
  -- server, over the items of the connection, has given the processor the messages that the receiver
  -- completes over the frames of all the bytes that have arrived, in order: how the network cuts the
  -- bytes into reads changes nothing, and neither do frames that are too long or that the receiver
  -- refuses.
  pub streamed-processes :
      {P : Type 0} (process : Message → P → P × Bool)
      → (max : ℕ) (m m' : Metrics) (s : S) (p : P) (es : List Stream.Event) (c : Connection S)
        (l : List (Option Received))
      → Stream.run receive es (opened receive max m s) ≡ (c, some l)
      → (decode receive c).1 ≡ item none
      → (Loop.run process (events_of l) (started m' p)).processor
        ≡ process_all process (decoded (frames max false (arrived es)) s) p
  streamed-processes process max m m' s p es c l ran asked =
      let fed = run-frames receive max m s es c l ran asked in
      run-processes process (events_of l) m' p
      ∙ ap (λ (msgs : List Message). process_all process msgs p)
          (ap (λ (r : S × List (Option Received)). messages (events_of r.1)) (sym fed)
            ∙ messages-feed (frames max false (arrived es)) s)
