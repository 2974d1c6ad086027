-- ===== src/Server/Tcp/Timed/Drained.antt =====
-- What a poll of the frames of a connection of sqelf/src/server/tcp.rs comes to by what its reads give, and
-- that the stream ends once its buffer is empty and its peer has closed the socket.
use seq_input_gelf.Common.{
  ◌≡◌, refl, ap, ◌∙◌, List, [], Option, none, some, inl, inr, arith, Bool-cases, min, drop_nil,
}
use seq_input_gelf.Receive.Outcome.{Bytes, Result}
use seq_input_gelf.Receive.Message.{Message}
use seq_input_gelf.Server.Received.{Received}
use seq_input_gelf.Server.Tcp.Decode.{
  Connection, Decode, saturating_suc, Answer, item, decode, decode_eof, next_frame, position,
  finish, last_frame,
}
use seq_input_gelf.Server.Tcp.Connections.{valid, ready}
use seq_input_gelf.Server.Tcp.Timed.{
  eof, Socket, Framed, poll_end, poll_framed, poll_stream, last_outcome,
}

module _ {S : Type 0} (receive : Bytes → S → S × Result (Option Message)) where
  -- A connection whose buffer is empty.
  abbrev pub drained : Decode → S → Connection S
  drained d s = record { decoder = record d { read_head = 0 }; src = []; receiver = s }

  decode-drained : (d : Decode) (s : S) → decode receive (drained d s) ≡ (drained d s, item none)
  unfolding decode next_frame finish position
  decode-drained d s = elim (Bool-cases d.discarding) [
    | inl skips ↦
        rw (skips, decode, next_frame, finish, position)
          (rw (drop_nil (min (saturating_suc d.max_size_bytes) 0))
            (λ i. (drained (record d { discarding = skips i }) s, item none)))
    | inr plain ↦ rw (plain, decode, next_frame, finish, position) (ground (arith, plain))
  ]

  eof-drained : (d : Decode) (s : S) → decode_eof receive (drained d s) ≡ (drained d s, item none)
  unfolding decode_eof last_frame
  eof-drained d s =
      rw (decode-drained d s, decode_eof)
        (ap (λ (r : Connection S × Answer). last_frame receive r.0) (decode-drained d s))

  framed-drained :
      (d : Decode) (s : S) → poll_framed receive [] (drained d s) ≡ (item none, ([], drained d s))
  unfolding poll_framed
  framed-drained d s = ap (λ (r : Connection S × Answer). (r.1, ([], r.0))) (decode-drained d s)

  -- A poll that has read all that there is comes to what the socket does then.
  pub poll_stream-asks :
      (socket : Socket) (c : Connection S)
      → (poll_framed receive socket.reads c).0 ≡ item none
      → poll_stream receive socket c
        ≡ poll_end receive socket.ending
            (poll_framed receive socket.reads c).1.0
            (poll_framed receive socket.reads c).1.1
  unfolding poll_stream
  poll_stream-asks socket c a = rw (a, poll_stream) refl

  pub poll_stream-answers :
      (socket : Socket) (c : Connection S) (x : Received)
      → (poll_framed receive socket.reads c).0 ≡ item (some x)
      → poll_stream receive socket c
        ≡ (some (ready (some (valid x))), (poll_framed receive socket.reads c).1)
  unfolding poll_stream
  poll_stream-answers socket c x a = rw (a, poll_stream) refl

  -- At the end of the socket, its stream ends.
  pub drained-ends :
      (d : Decode) (s : S)
      → (poll_stream receive (record { reads = []; ending = eof }) (drained d s)).0
        ≡ some (ready none)
  unfolding poll_stream poll_end
  drained-ends d s =
      ap (λ (r : Framed receive). r.0)
        (poll_stream-asks (record { reads = []; ending = eof }) (drained d s)
          (ap (λ (r : Answer × (List Bytes × Connection S)). r.0) (framed-drained d s)))
      ∙ ap (λ (r : Answer × (List Bytes × Connection S)). (poll_end receive eof r.1.0 r.1.1).0)
          (framed-drained d s)
      ∙ ap (λ (r : Connection S × Answer). last_outcome receive r.1) (eof-drained d s)
