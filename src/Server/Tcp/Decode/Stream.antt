-- ===== src/Server/Tcp/Decode/Stream.antt =====
-- A whole connection: however the bytes are cut into reads, the receiver is given the frames of the
-- stream, in order.
use mathlib.Core.Path.{subst}
use mathlib.Core.List.{append-nil, append_assoc}
use seq_input_gelf.Common.{
  ℕ, ◌≤◌, ◌≡◌, refl, sym, ap, ◌∙◌, false, List, [], ◌∷◌, ◌++◌, arith, Option, none, some, ◌⊎◌, inl,
  inr, true, length, length-append, take_of_append,
}
use seq_input_gelf.Receive.Outcome.{Bytes, Result}
use seq_input_gelf.Receive.Message.{Message}
use seq_input_gelf.Server.Received.{Received, into_received, into_received-some}
use seq_input_gelf.Server.Metrics.{Metrics}
use seq_input_gelf.Server.Tcp.Decode.Segments.{frames, NoNull}
use seq_input_gelf.Server.Tcp.Decode.Framing.{Inv, pending, Good, restart-Inv}
use seq_input_gelf.Server.Tcp.Decode.Loop.{next_frame-Good}
use seq_input_gelf.Server.Tcp.Decode.{
  Decode, Step, frame, more, panicked, out_of_fuel, Answer, item, panic, Connection, finish, decode,
  new,
}

-- What the caller of a decoder does: it puts the bytes that arrive behind those in the buffer, or it
-- asks for a frame.
pub data Event : Type 0 where
  arrive : Bytes → Event
  poll : Event

unfoldable pub arrived : List Event → Bytes
arrived [] = []
arrived (arrive bytes ∷ es) = bytes ++ arrived es
arrived (poll ∷ es) = arrived es

module _ {S : Type 0} (receive : Bytes → S → S × Result (Option Message)) where
  -- The receiver given frames one after the other, and what it makes of them.
  unfoldable pub feed : List Bytes → S → S × List (Option Received)
  feed [] s = (s, [])
  feed (f ∷ fs) s =
      let r = receive f s in let rest = feed fs r.0 in (rest.0, into_received r.1 ∷ rest.1)

  abbrev pub receive_more : Bytes → Connection S → Connection S
  receive_more bytes c = record c { src = c.src ++ bytes }

  -- The items of a connection over events; `none` if the decoder panics.
  unfoldable pub run : List Event → Connection S → Connection S × Option (List (Option Received))
  run [] c = (c, some [])
  run (arrive bytes ∷ es) c = run es (receive_more bytes c)
  run (poll ∷ es) c =
      let r = decode receive c in
      let rest = run es r.0 in
      elim r.1 [
        | panic ↦ (r.0, none)
        | item none ↦ rest
        | item (some received) ↦
            (rest.0, elim rest.1 [ none ↦ none | some l ↦ some (some received ∷ l) ])
      ]

  abbrev pub IsValid : Connection S → Type 0
  IsValid c = Inv c.decoder c.src

  -- The frames that a connection still owes its receiver, if `later` comes.
  abbrev pub owed : Connection S → Bytes → List Bytes
  owed c later = pending c.decoder c.src later

  -- What is left in a buffer that holds no whole frame.
  pub record IsLast (c : Connection S) : Type 0 where
    pub plain : NoNull c.src
    pub fits : length c.src ≤ c.decoder.max_size_bytes
    pub skipped : c.decoder.discarding ≡ true → c.src ≡ []

  -- What a call of the decoder comes to: it takes the next frame that is owed, or asks for more.
  abbrev pub Takes : Connection S → Connection S × Answer → Type 0
  Takes c (c', a) =
      IsValid c'
      × (((a ≡ item none)
            × ((later : Bytes) → owed c later ≡ owed c' later)
            × (c'.receiver ≡ c.receiver)
            × (owed c' [] ≡ [])
            × IsLast c')
          ⊎ ((f : Bytes) × (a ≡ item (into_received (receive f c.receiver).1))
              × (c'.receiver ≡ (receive f c.receiver).0)
              × ((later : Bytes) → owed c later ≡ f ∷ owed c' later)))

  finish-Takes :
      (c : Connection S) (r : Step × Decode × Bytes)
      → Good c.decoder c.src r
      → Takes c (finish receive c r)
  unfolding finish
  finish-Takes c (frame f, d, rest) g = (g.inv, inr (f, refl, refl, g.answers))
  finish-Takes c (more, d, rest) g = (
    g.inv,
    inl (
      refl,
      g.answers.0,
      refl,
      g.answers.1,
      record { plain = g.answers.3.0; fits = rw (g.max) g.answers.2; skipped = g.answers.3.1 },
    ),
  )
  finish-Takes c (panicked, d, rest) g = absurd g.answers
  finish-Takes c (out_of_fuel, d, rest) g = absurd g.answers

  pub decode-Takes : (c : Connection S) → IsValid c → Takes c (decode receive c)
  unfolding decode
  decode-Takes c v = finish-Takes c _ (next_frame-Good c.decoder c.src v)

  pub arrive-IsValid :
      (bytes : Bytes) (c : Connection S) → IsValid c → IsValid (receive_more bytes c)
  arrive-IsValid bytes c v = record {
    inside = omega (arith, length-append c.src bytes, v.inside);
    plain = rw (take_of_append c.decoder.read_head c.src bytes v.inside) v.plain;
  }

  -- A run that does not panic, and what it leaves to the receiver.
  abbrev Runs : List Event → Connection S → Type 0
  Runs es c =
      (c' : Connection S) × (l : List (Option Received)) × (run es c ≡ (c', some l))
      × IsValid c'
      × ((later : Bytes)
          → feed (owed c (arrived es ++ later)) c.receiver
            ≡ ((feed (owed c' later) c'.receiver).0, l ++ (feed (owed c' later) c'.receiver).1))

  abbrev polled : Connection S → Connection S
  polled c = (decode receive c).0

  -- A poll that asks for more changes nothing of what is owed.
  run_more :
      (es : List Event) (c : Connection S)
      → (decode receive c).1 ≡ item none
      → ((later : Bytes) → owed c later ≡ owed (polled c) later)
      → (polled c).receiver ≡ c.receiver
      → Runs es (polled c)
      → Runs (poll ∷ es) c
  unfolding run arrived
  run_more es c a same kept (c', l, ran, w, fed) = (
    c',
    l,
    rw (a, run) ran,
    w,
    λ later.
        ap (λ (fs : List Bytes). feed fs c.receiver) (same (arrived es ++ later))
        ∙ ap (feed (owed (polled c) (arrived es ++ later))) (sym kept)
        ∙ fed later,
  )

  -- A poll that takes a frame gives it to the receiver.
  run_frame :
      (es : List Event) (c : Connection S) (f : Bytes)
      → (decode receive c).1 ≡ item (into_received (receive f c.receiver).1)
      → (polled c).receiver ≡ (receive f c.receiver).0
      → ((later : Bytes) → owed c later ≡ f ∷ owed (polled c) later)
      → Runs es (polled c)
      → Runs (poll ∷ es) c
  unfolding run arrived feed
  run_frame es c f a moved next (c', l, ran, w, fed) =
      let (x, e) = into_received-some (receive f c.receiver).1 in
      (
        c',
        some x ∷ l,
        rw (a ∙ ap item e, run) (rw ran),
        w,
        λ later.
            ap (λ (fs : List Bytes). feed fs c.receiver) (next (arrived es ++ later))
            ∙ rw (← moved, e)
                (ap (λ (r : S × List (Option Received)). (r.0, some x ∷ r.1)) (fed later)),
      )

  run-Runs : (es : List Event) (c : Connection S) → IsValid c → Runs es c
  unfolding run arrived
  run-Runs [] c v = (c, [], refl, v, λ later. refl)
  run-Runs (arrive bytes ∷ es) c v =
      let (c', l, ran, w, fed) = run-Runs es (receive_more bytes c) (arrive-IsValid bytes c v) in
      (
        c',
        l,
        ran,
        w,
        λ later.
            ap
              (λ (b : Bytes).
                feed (frames c.decoder.max_size_bytes c.decoder.discarding b) c.receiver)
              (ap (◌++◌ c.src) (append_assoc bytes (arrived es) later)
                ∙ sym (append_assoc c.src bytes (arrived es ++ later)))
            ∙ fed later,
      )
  run-Runs (poll ∷ es) c v =
      let (w, taken) = decode-Takes c v in
      let rest = run-Runs es (polled c) w in
      elim taken [
        | inl (a, same, kept, _, _) ↦ run_more es c a same kept rest
        | inr (f, a, moved, next) ↦ run_frame es c f a moved next rest
      ]

  owed_settled : (c : Connection S) → IsValid c → (decode receive c).1 ≡ item none → owed c [] ≡ []
  owed_settled c v asked = elim (decode-Takes c v).1 [
    | inl (_, same, _, done, _) ↦ same [] ∙ done
    | inr (f, a, _, _) ↦
        let (x, e) = into_received-some (receive f c.receiver).1 in absurd (cc (a, asked, e))
  ]

  unfoldable pub opened : ℕ → Metrics → S → Connection S
  unfolding new
  opened max m s = record { decoder = new max m; src = []; receiver = s }

  settled_feed :
      (es : List Event) (c c' : Connection S) (l : List (Option Received))
      → IsValid c'
      → ((later : Bytes)
          → feed (owed c (arrived es ++ later)) c.receiver
            ≡ ((feed (owed c' later) c'.receiver).0, l ++ (feed (owed c' later) c'.receiver).1))
      → (decode receive c').1 ≡ item none
      → feed (owed c (arrived es)) c.receiver ≡ (c'.receiver, l)
  unfolding feed
  settled_feed es c c' l w fed asked =
      ap (λ (b : Bytes). feed (owed c b) c.receiver) (sym (append-nil (arrived es)))
      ∙ fed []
      ∙ ap (λ (fs : List Bytes). ((feed fs c'.receiver).0, l ++ (feed fs c'.receiver).1))
          (owed_settled c' w asked)
      ∙ ap (λ (x : List (Option Received)). (c'.receiver, x)) (append-nil l)

  -- A new connection never panics, however its bytes are cut into reads and whenever it is polled: the
  -- run has a final state and a list of items.
  pub run-total :
      (max : ℕ) (m : Metrics) (s : S) (es : List Event)
      → (c' : Connection S) × (l : List (Option Received)) × (run es (opened max m s)
          ≡ (c', some l))
  unfolding new opened
  run-total max m s es =
      let (c', l, ran, w, fed) =
        run-Runs es (opened max m s) (restart-Inv (opened max m s).decoder []) in
      (c', l, ran)

  -- A state that follows from a run, with its items, and what it leaves to the receiver.
  abbrev Follows :
      List Event → Connection S → Connection S × Option (List (Option Received)) → Type 0
  Follows es c (c', none) = Unit
  Follows es c (c', some l) =
      IsValid c'
      × ((later : Bytes)
          → feed (owed c (arrived es ++ later)) c.receiver
            ≡ ((feed (owed c' later) c'.receiver).0, l ++ (feed (owed c' later) c'.receiver).1))

  pub run-Follows :
      (max : ℕ) (m : Metrics) (s : S) (es : List Event) (c' : Connection S)
      (l : List (Option Received))
      → run es (opened max m s) ≡ (c', some l)
      → Follows es (opened max m s) (c', some l)
  unfolding new opened
  run-Follows max m s es c' l ran =
      let c = opened max m s in
      let (c1, l1, ran1, w, fed) = run-Runs es c (restart-Inv c.decoder []) in
      subst (Follows es c) (sym ran1 ∙ ran) (w, fed)

  -- Once a new connection that has run over any reads and polls asks for more bytes, its receiver has
  -- been given exactly the frames of all the bytes that have arrived, in order: the segments that end
  -- in a null byte and are not too long. The items are what the receiver made of them.
  pub run-frames :
      (max : ℕ) (m : Metrics) (s : S) (es : List Event) (c' : Connection S)
      (l : List (Option Received))
      → run es (opened max m s) ≡ (c', some l)
      → (decode receive c').1 ≡ item none
      → feed (frames max false (arrived es)) s ≡ (c'.receiver, l)
  unfolding new opened
  run-frames max m s es c' l ran asked =
      let (w, fed) = run-Follows max m s es c' l ran in
      settled_feed es (opened max m s) c' l w fed asked
