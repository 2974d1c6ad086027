-- ===== src/Server/Tcp/Timed/Framed.antt =====
-- What a poll of the frames of a connection of sqelf/src/server/tcp.rs comes to, at a socket that is open,
-- has ended or fails.
use mathlib.Core.Path.{subst}
use seq_input_gelf.Common.{
  ◌≡◌, refl, sym, ap, ◌∙◌, List, [], ◌∷◌, ◌++◌, Option, none, some, ◌⊎◌, inl, inr, arith,
  Bool-cases, ℕ,
}
use seq_input_gelf.Receive.Outcome.{Bytes, Result}
use seq_input_gelf.Receive.Message.{Message}
use seq_input_gelf.Receive.Reader.Stream.{concat}
use seq_input_gelf.Server.Received.{Received, into_received, into_received-some}
use seq_input_gelf.Server.Tcp.Decode.{
  Connection, Decode, Answer, item, decode, decode_eof, last_frame,
}
use seq_input_gelf.Server.Tcp.Decode.Segments.{frames, segments, fitting}
use seq_input_gelf.Server.Tcp.Decode.Framing.{restart-Inv}
use seq_input_gelf.Server.Tcp.Decode.Eof.{asked_more, owed_null, decode_eof-last}
use seq_input_gelf.Server.Tcp.Decode.Stream.{IsValid, IsLast, owed, decode-Takes}
use seq_input_gelf.Server.Tcp.Connections.{Item, valid, failed, Poll, ready, pending}
use seq_input_gelf.Server.Tcp.Timed.{
  Ending, connected, eof, broken, Socket, Framed, poll_end, poll_framed, poll_stream, last_outcome,
}
use seq_input_gelf.Server.Tcp.Timed.Drained.{drained, poll_stream-asks, poll_stream-answers}
use seq_input_gelf.Server.Tcp.Timed.Polls.{Asks, poll_framed-Polls}

-- What follows the bytes that are there: those that come later, the null byte that a last frame does not
-- need, or nothing.
abbrev pub after_end : Ending → Bytes → Bytes
after_end connected later = later
after_end eof later = 0 ∷ []
after_end (broken e) later = []

-- No frame, or an empty one, which nothing is made of at the end of a socket.
abbrev pub IsNothing : List Bytes → Type 0
IsNothing fs = (fs ≡ []) ⊎ (fs ≡ [] ∷ [])

module _ {S : Type 0} (receive : Bytes → S → S × Result (Option Message)) where
  -- A poll that gives what the receiver makes of the next frame.
  pub record Gives (reads : List Bytes) (c : Connection S) (r : Framed receive) : Type 0 where
    pub bytes : Bytes
    pub received : Received
    pub made : into_received (receive bytes c.receiver).1 ≡ some received
    pub outcome : r.0 ≡ some (ready (some (valid received)))
    pub receiver : r.1.1.receiver ≡ (receive bytes c.receiver).0
    pub same :
        (later : Bytes)
        → owed receive c (concat reads ++ later)
          ≡ bytes ∷ owed receive r.1.1 (concat r.1.0 ++ later)

  -- One that gives the last frame, which needs no null byte, and leaves nothing.
  pub record GivesLast (reads : List Bytes) (c : Connection S) (r : Framed receive) : Type 0 where
    pub bytes : Bytes
    pub received : Received
    pub made : into_received (receive bytes c.receiver).1 ≡ some received
    pub outcome : r.0 ≡ some (ready (some (valid received)))
    pub same : owed receive c (concat reads ++ 0 ∷ []) ≡ bytes ∷ []
    pub emptied : r.1.0 ≡ []
    pub decoder : Decode
    pub receiver : S
    pub leaves : r.1.1 ≡ drained receive decoder receiver

  -- One that waits for more.
  pub record Waits (reads : List Bytes) (c : Connection S) (r : Framed receive) : Type 0 where
    pub outcome : r.0 ≡ some pending
    pub emptied : r.1.0 ≡ []
    pub receiver : r.1.1.receiver ≡ c.receiver
    pub same : (later : Bytes) → owed receive c (concat reads ++ later) ≡ owed receive r.1.1 later

  -- What a poll that finds no whole frame comes to.
  abbrev pub Stops : Ending → List Bytes → Connection S → Framed receive → Type 0
  Stops connected reads c r = Waits reads c r
  Stops eof reads c r =
      ((r.0 ≡ some (ready none)) × IsNothing (owed receive c (concat reads ++ 0 ∷ [])))
      ⊎ GivesLast reads c r
  Stops (broken e) reads c r = r.0 ≡ some (ready (some (failed e)))

  abbrev pub Streams : Socket → Connection S → Framed receive → Type 0
  Streams socket c r =
      IsValid receive r.1.1 × (Gives socket.reads c r ⊎ Stops socket.ending socket.reads c r)

  decode_eof-empty :
      (c : Connection S)
      → (decode receive c).1 ≡ item none
      → (asked_more receive c).src ≡ []
      → decode_eof receive c ≡ (asked_more receive c, item none)
  unfolding decode_eof last_frame
  decode_eof-empty c asked left = rw (asked, decode_eof) (rw (left, last_frame) refl)

  decode_eof-drained :
      (c : Connection S) (b : ℕ) (bs : Bytes)
      → (decode receive c).1 ≡ item none
      → (asked_more receive c).src ≡ b ∷ bs
      → (decode_eof receive c).0
        ≡ drained receive
            (asked_more receive c).decoder
            (receive (b ∷ bs) (asked_more receive c).receiver).0
  unfolding decode_eof last_frame
  decode_eof-drained c b bs asked left = rw (asked, left, decode_eof, last_frame) refl

  -- With an empty buffer, nothing is owed at the end of the socket.
  owed-IsNothing : (c : Connection S) → c.src ≡ [] → IsNothing (owed receive c (0 ∷ []))
  unfolding frames segments fitting
  owed-IsNothing c e = elim (Bool-cases c.decoder.discarding) [
    | inl skips ↦ inl (rw (e, skips, frames, segments) refl)
    | inr plain ↦ inr (rw (e, plain, frames, segments) (ground arith))
  ]

  -- At the end of the socket, what is left in the buffer is the last frame.
  abbrev Ended : List Bytes → Connection S → List Bytes → Connection S × Answer → Type 0
  Ended reads c reads' q =
      Streams (record { reads = reads; ending = eof }) c (last_outcome receive q.1, (reads', q.0))

  eof-Stops :
      (reads : List Bytes) (c : Connection S) (r : Answer × (List Bytes × Connection S))
      → IsValid receive r.1.1
      → Asks receive reads c r
      → (left : Bytes) → (asked_more receive r.1.1).src ≡ left
      → Ended reads c r.1.0 (decode_eof receive r.1.1)
  eof-Stops reads c r v asks left e =
      let (w, taken) = decode-Takes receive r.1.1 v in
      elim taken [
        | inr (f, a, moved, next) ↦ absurd (cc (next [], asks.settled))
        | inl (a, same, kept, done, last) ↦ eof_left reads c r asks left e a same kept w last
      ]
    where
      eof_left :
          (reads : List Bytes) (c : Connection S) (r : Answer × (List Bytes × Connection S))
          → Asks receive reads c r
          → (left : Bytes) → (asked_more receive r.1.1).src ≡ left
          → (decode receive r.1.1).1 ≡ item none
          → ((later : Bytes)
              → owed receive r.1.1 later ≡ owed receive (asked_more receive r.1.1) later)
          → (asked_more receive r.1.1).receiver ≡ r.1.1.receiver
          → IsValid receive (asked_more receive r.1.1)
          → IsLast receive (asked_more receive r.1.1)
          → Ended reads c r.1.0 (decode_eof receive r.1.1)
      eof_left reads c r asks [] e a same kept w last =
          subst (Ended reads c r.1.0) (sym (decode_eof-empty r.1.1 a e)) (
            w,
            inr (
                inl (
                  refl,
                  subst IsNothing (sym (asks.same (0 ∷ []) ∙ same (0 ∷ [])))
                      (owed-IsNothing (asked_more receive r.1.1) e),
                )),
          )
      eof_left reads c r asks (b ∷ bs) e a same kept w last =
          let c'' = asked_more receive r.1.1 in
          let (x, made) = into_received-some (receive (b ∷ bs) c''.receiver).1 in
          let answered = (decode_eof-last receive r.1.1 b bs a e).0 ∙ ap item made in
          let d = c''.decoder in
          let s = (receive (b ∷ bs) c''.receiver).0 in
          let whole : ◌≡◌ {A = Connection S × Answer} (drained receive d s, item (some x))
              (decode_eof receive r.1.1) =
            λ i. (sym (decode_eof-drained r.1.1 b bs a e) i, sym answered i) in
          subst (Ended reads c r.1.0) whole (
            restart-Inv d [],
            inr (
                inr (record {
                  bytes = b ∷ bs;
                  received = x;
                  made =
                      ap (λ (q : S). into_received (receive (b ∷ bs) q).1)
                        (sym (kept ∙ asks.receiver))
                      ∙ made;
                  outcome = refl;
                  same = asks.same (0 ∷ []) ∙ same (0 ∷ []) ∙ owed_null receive c'' b bs last e;
                  emptied = asks.emptied;
                  decoder = d;
                  receiver = s;
                  leaves = refl;
                })),
          )

  poll_end-Streams :
      (e : Ending) (reads : List Bytes) (c : Connection S)
      (r : Answer × (List Bytes × Connection S))
      → IsValid receive r.1.1
      → Asks receive reads c r
      → Streams (record { reads = reads; ending = e }) c (poll_end receive e r.1.0 r.1.1)
  unfolding poll_end
  poll_end-Streams connected reads c r v asks = (
    v,
    inr (record {
      outcome = refl;
      emptied = asks.emptied;
      receiver = asks.receiver;
      same = asks.same;
    }),
  )
  poll_end-Streams eof reads c r v asks =
      eof-Stops reads c r v asks (asked_more receive r.1.1).src refl
  poll_end-Streams (broken e) reads c r v asks = (v, inr refl)

  pub poll_stream-Streams :
      (socket : Socket) (c : Connection S)
      → IsValid receive c
      → Streams socket c (poll_stream receive socket c)
  poll_stream-Streams socket c v =
      let r = poll_framed receive socket.reads c in
      let (w, taken) = poll_framed-Polls receive socket.reads c v in
      elim taken [
        | inl asks ↦
            subst (Streams socket c) (sym (poll_stream-asks receive socket c asks.answer))
              (poll_end-Streams socket.ending socket.reads c r w asks)
        | inr answers ↦
            subst (Streams socket c)
              (sym (poll_stream-answers receive socket c answers.received answers.answer))
              (
                w,
                inl (record {
                  bytes = answers.bytes;
                  received = answers.received;
                  made = answers.made;
                  outcome = refl;
                  receiver = answers.receiver;
                  same = answers.same;
                }),
              )
      ]

  -- A poll does not panic.
  pub some_outcome :
      (socket : Socket) (c : Connection S)
      → IsValid receive c
      → (o : Poll (Option (Item Received))) × ((poll_stream receive socket c).0 ≡ some o)
  some_outcome socket c v =
      outcome_of socket.ending socket.reads (poll_stream receive socket c)
        (poll_stream-Streams socket c v).1
    where
      outcome_of :
          (e : Ending) (reads : List Bytes) (r : Framed receive)
          → (Gives reads c r ⊎ Stops e reads c r)
          → (o : Poll (Option (Item Received))) × (r.0 ≡ some o)
      outcome_of e reads r (inl gives) = (ready (some (valid gives.received)), gives.outcome)
      outcome_of connected reads r (inr waits) = (pending, waits.outcome)
      outcome_of eof reads r (inr (inl (ends, nothing))) = (ready none, ends)
      outcome_of eof reads r (inr (inr last)) = (ready (some (valid last.received)), last.outcome)
      outcome_of (broken e) reads r (inr fails) = (ready (some (failed e)), fails)
