-- ===== src/Server/Tcp/Timed/Sessions.antt =====
-- What the session of a connection of sqelf/src/server/tcp.rs gives, and when it is closed.
use mathlib.Core.Path.{subst}
use seq_input_gelf.Common.{
  ℕ, ◌+◌, ◌≡◌, refl, sym, ap, ◌∙◌, Bool, false, List, [], ◌∷◌, ◌++◌, Option, some, inl, inr, none,
}
use seq_input_gelf.Receive.Outcome.{Bytes, Result}
use seq_input_gelf.Receive.Message.{Message}
use seq_input_gelf.Receive.Reader.Stream.{concat}
use seq_input_gelf.Server.Metrics.{Metrics}
use seq_input_gelf.Server.Tcp.Decode.{Connection, new as new_decoder}
use seq_input_gelf.Server.Tcp.Decode.Segments.{frames}
use seq_input_gelf.Server.Tcp.Decode.Framing.{restart-Inv}
use seq_input_gelf.Server.Tcp.Decode.Stream.{IsValid, owed, opened}
use seq_input_gelf.Server.Tcp.Connections.{
  TimeoutStream, valid, failed, ready, pending, count_accept, count_close, count_receive_err, new,
}
use seq_input_gelf.Server.Tcp.Timed.{
  IsTimeout, Ending, connected, eof, broken, Socket, arrive, running, closed, errored, Framed,
  serve, session,
}
use seq_input_gelf.Server.Tcp.Timed.Framed.{after_end, Gives, Stops, Streams, poll_stream-Streams}
use seq_input_gelf.Server.Tcp.Timed.Ended.{
  ends, until_end, IsSession, over-IsSession, item-IsSession, IsSession-of,
}
use seq_input_gelf.Server.Tcp.Timed.Turns.{polled, unread, kept, reset}
use seq_input_gelf.Server.Tcp.Timed.Armed.{
  IsArmed, owing, Serves, turn-IsSession, drained-IsSession, owing-arrive, ends-arrive,
}

module _ {S : Type 0} (receive : Bytes → S → S × Result (Option Message)) where
  module _ (elapses : ℕ → ℕ → Bool → Bool) (law : IsTimeout elapses) (keep_alive : ℕ)
      (m : Metrics) where
    -- A turn of the session of a stream, if what follows it is a session.
    module _ (start now : ℕ) (arrived : Socket) (polls : List (ℕ × Socket)) (socket : Socket)
        (t : TimeoutStream (Connection S)) (set : IsArmed receive elapses law keep_alive m start t)
        (rest : (next : Socket) (last : ℕ) (u : TimeoutStream (Connection S))
          → IsArmed receive elapses law keep_alive m last u
          → Serves receive elapses law keep_alive m last polls next u) where
      abbrev there : Socket
      there = arrive arrived socket

      abbrev outcome : Framed receive
      outcome = polled receive elapses socket arrived t

      -- The session of this turn, of a socket that ends in a way.
      abbrev TurnIs : Ending → Type 0
      TurnIs e =
          IsSession receive keep_alive start m (ends e polls)
            (owed receive t.stream (concat there.reads ++ after_end e (until_end polls)))
            t.stream.receiver (serve receive elapses ((now, arrived) ∷ polls) socket t m)

      kept-IsArmed :
          IsValid receive outcome.1.1
          → IsArmed receive elapses law keep_alive m start (kept receive elapses socket arrived t)
      kept-IsArmed v = record { valid = v; deadline = set.deadline; same = set.same }

      reset-IsArmed :
          IsValid receive outcome.1.1
          → IsArmed receive elapses law keep_alive m now
              (reset receive elapses now socket arrived t)
      reset-IsArmed v = record {
        valid = v;
        deadline = ap (λ (k : ℕ). now + k) set.same;
        same = set.same;
      }

      Gives-TurnIs :
          IsValid receive outcome.1.1
          → Gives receive there.reads t.stream outcome
          → TurnIs there.ending
      Gives-TurnIs v g =
          let s = t.stream.receiver in
          let bytes = after_end there.ending (until_end polls) in
          let c' = outcome.1.1 in
          let later = owed receive c' (concat outcome.1.0 ++ bytes) in
          let e = ends there.ending polls in
          let owes = owed receive t.stream (concat there.reads ++ bytes) in
          turn-IsSession receive elapses law keep_alive m start e owes s now arrived polls socket t
            (ready (some (valid g.received))) set g.outcome
            (IsSession-of receive keep_alive m start e owes s (g.bytes ∷ later) s _
              (sym (g.same bytes)) refl
              (item-IsSession receive keep_alive m start now g.bytes g.received e later s _ g.made (
                IsSession-of receive keep_alive m now e later (receive g.bytes s).0 later
                  c'.receiver _ refl g.receiver
                  (rest (unread receive elapses socket arrived t) now
                    (reset receive elapses now socket arrived t) (reset-IsArmed v)))))

      Stops-TurnIs :
          (e : Ending)
          → there.ending ≡ e
          → IsValid receive outcome.1.1
          → Stops receive e there.reads t.stream outcome
          → TurnIs e
      unfolding ends concat
      Stops-TurnIs connected h v waits =
          let s = t.stream.receiver in
          let c' = outcome.1.1 in
          let later = until_end polls in
          let r =
            serve receive elapses polls (unread receive elapses socket arrived t)
              (kept receive elapses socket arrived t) m in
          let following =
            rest (unread receive elapses socket arrived t) start
              (kept receive elapses socket arrived t) (kept-IsArmed v) in
          let following' =
            subst
              (λ (e : Ending).
                IsSession receive keep_alive start m (ends e polls)
                  (owed receive c' (concat outcome.1.0 ++ after_end e later)) c'.receiver r)
              h following in
          let same =
            ap (λ (l : List Bytes). owed receive c' (concat l ++ later)) waits.emptied
            ∙ sym (waits.same later) in
          turn-IsSession receive elapses law keep_alive m start (ends connected polls) _ s now
            arrived polls socket t pending set waits.outcome
            (IsSession-of receive keep_alive m start (ends connected polls) _ s _ c'.receiver r same
              waits.receiver following')
      Stops-TurnIs eof h v (inl (over, nothing)) =
          turn-IsSession receive elapses law keep_alive m start eof _ t.stream.receiver now arrived
            polls socket t (ready none) set over
            (over-IsSession receive keep_alive m start eof _ t.stream.receiver
              (closed now (count_close m)) (inr (refl, refl, nothing)))
      Stops-TurnIs eof h v (inr last) =
          let s = t.stream.receiver in
          let next = reset receive elapses now socket arrived t in
          let following =
            subst
              (λ (e : Ending).
                IsSession receive keep_alive now m eof [] (receive last.bytes s).0
                  (serve receive elapses polls (record { reads = outcome.1.0; ending = e }) next m))
              (sym h)
              (drained-IsSession receive elapses law keep_alive m polls last.decoder last.receiver
                (receive last.bytes s).0 now next outcome.1.0 (reset-IsArmed v) last.leaves
                last.emptied) in
          turn-IsSession receive elapses law keep_alive m start eof _ s now arrived polls socket t
            (ready (some (valid last.received))) set last.outcome
            (IsSession-of receive keep_alive m start eof _ s (last.bytes ∷ []) s _ (sym last.same)
              refl
              (item-IsSession receive keep_alive m start now last.bytes last.received eof [] s _
                last.made following))
      Stops-TurnIs (broken e) h v fails =
          turn-IsSession receive elapses law keep_alive m start (broken e) _ t.stream.receiver now
            arrived polls socket t (ready (some (failed e))) set fails
            (over-IsSession receive keep_alive m start (broken e) _ t.stream.receiver
              (errored now e (count_close (count_receive_err m))) (refl, refl))

      Streams-TurnIs : Streams receive there t.stream outcome → TurnIs there.ending
      Streams-TurnIs (v, inl gives) = Gives-TurnIs v gives
      Streams-TurnIs (v, inr stops) = Stops-TurnIs there.ending refl v stops

    -- The session of a stream, over its polls.
    serve-IsSession :
        (polls : List (ℕ × Socket)) (socket : Socket) (start : ℕ) (t : TimeoutStream (Connection S))
        → IsArmed receive elapses law keep_alive m start t
        → Serves receive elapses law keep_alive m start polls socket t
    unfolding serve
    serve-IsSession [] socket start t set =
        over-IsSession receive keep_alive m start _ _ t.stream.receiver (running t) set.deadline
    serve-IsSession ((now, arrived) ∷ polls) socket start t set =
        let there = arrive arrived socket in
        let r = serve receive elapses ((now, arrived) ∷ polls) socket t m in
        let turn =
          Streams-TurnIs start now arrived polls socket t set
            (λ next last u armed. serve-IsSession polls next last u armed)
            (poll_stream-Streams receive there t.stream set.valid) in
        subst
          (λ (e : Ending).
            IsSession receive keep_alive start m e
              (owing receive elapses law keep_alive m ((now, arrived) ∷ polls) socket t)
              t.stream.receiver r)
          (ends-arrive receive elapses law keep_alive m now arrived polls socket.reads
            socket.ending)
          (IsSession-of receive keep_alive m start (ends there.ending polls) _ t.stream.receiver _
            t.stream.receiver r
            (owing-arrive receive elapses law keep_alive m now arrived polls socket t) refl turn)

  -- Under any timeout that elapses as tokio's does, the session of a new connection, whose bytes are
  -- cut into reads and polled in any way, and whose socket stays open, is closed by its peer or fails,
  -- does not panic, and its items are what the receiver makes of the first frames of its bytes, in
  -- order; if the peer closes the socket, the last frame needs no null byte. If the connection is open,
  -- its timeout is set to `keep_alive` after its last item, or its start. If it was closed, that time
  -- had passed, and one more timeout is counted, or the peer has closed the socket, no timeout is
  -- counted, and all of its frames were given, but for an empty rest. If it was dropped for an error, it
  -- is the socket's, and it is counted.
  pub session-IsSession :
      (elapses : ℕ → ℕ → Bool → Bool)
      → IsTimeout elapses
      → (max keep_alive start : ℕ) (m : Metrics) (s : S) (polls : List (ℕ × Socket))
      → IsSession receive keep_alive start
          (count_accept m)
          (ends connected polls)
          (frames max false (until_end polls))
          s
          (session receive elapses max keep_alive start m s polls)
  unfolding session new opened concat new_decoder
  session-IsSession elapses law max keep_alive start m s polls =
      serve-IsSession elapses law keep_alive (count_accept m) polls
        (record { reads = []; ending = connected }) start
        (new start keep_alive (opened receive max m s) m).0
        (record {
          valid = restart-Inv (opened receive max m s).decoder [];
          deadline = refl;
          same = refl;
        })
