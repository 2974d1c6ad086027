-- ===== src/Server/Tcp/Timed/Armed.antt =====
-- A turn of a session of sqelf/src/server/tcp.rs, which the timeout may close, and the turn after the last
-- frame.
use mathlib.Core.Path.{subst}
use seq_input_gelf.Common.{
  ℕ, ◌+◌, ◌≤◌, ◌≡◌, refl, sym, ◌∙◌, Bool, true, List, [], ◌∷◌, ◌++◌, Option, some, inl, inr, arith,
  none, Bool-cases, ltb,
}
use seq_input_gelf.Receive.Outcome.{Bytes, Result}
use seq_input_gelf.Receive.Message.{Message}
use seq_input_gelf.Receive.Reader.Stream.{concat}
use seq_input_gelf.Server.Metrics.{Metrics}
use seq_input_gelf.Server.Received.{Received}
use seq_input_gelf.Server.Tcp.Decode.{Connection, Decode}
use seq_input_gelf.Server.Tcp.Decode.Stream.{IsValid, owed}
use seq_input_gelf.Server.Tcp.Connections.{
  TimeoutStream, Item, Poll, ready, count_timeout, count_close,
}
use seq_input_gelf.Server.Tcp.Timed.{
  IsTimeout, Ending, connected, eof, broken, Socket, arrive, running, closed, serve, poll_stream,
}
use seq_input_gelf.Server.Tcp.Timed.Framed.{after_end}
use seq_input_gelf.Server.Tcp.Timed.Drained.{drained, drained-ends}
use seq_input_gelf.Server.Tcp.Timed.Ended.{ends, until_end, IsSession, over-IsSession}
use seq_input_gelf.Server.Tcp.Timed.Turns.{polled, in_time, is_ready, serve-turn}
use seq_input_gelf.Server.Tcp.Timed.Silent.{owed_arrived}

module _ {S : Type 0} (receive : Bytes → S → S × Result (Option Message)) where
  module _ (elapses : ℕ → ℕ → Bool → Bool) (law : IsTimeout elapses) (keep_alive : ℕ)
      (m : Metrics) where
    not_early :
        (now deadline : ℕ) (is_ready : Bool) → elapses now deadline is_ready ≡ true → deadline ≤ now
    not_early now deadline is_ready e = elim (Bool-cases (ltb now deadline)) [
      | inl less ↦ absurd (cc (e, law.early now deadline is_ready (ground (arith, less))))
      | inr more ↦ ground (arith, more)
    ]

    -- A stream whose timeout was set at its last item.
    pub record IsArmed (start : ℕ) (t : TimeoutStream (Connection S)) : Type 0 where
      pub valid : IsValid receive t.stream
      pub deadline : t.deadline ≡ start + keep_alive
      pub same : t.keep_alive ≡ keep_alive

    -- What the socket and the buffer of a stream owe, over polls to come.
    abbrev pub owing : List (ℕ × Socket) → Socket → TimeoutStream (Connection S) → List Bytes
    owing polls socket t =
        owed receive t.stream (concat socket.reads ++ after_end socket.ending (until_end polls))

    abbrev pub Serves : ℕ → List (ℕ × Socket) → Socket → TimeoutStream (Connection S) → Type 0
    Serves start polls socket t =
        IsSession receive keep_alive start m (ends socket.ending polls) (owing polls socket t)
          t.stream.receiver (serve receive elapses polls socket t m)

    -- What arrives at a poll was to come.
    pub owing-arrive :
        (now : ℕ) (arrived : Socket) (polls : List (ℕ × Socket)) (socket : Socket)
        (t : TimeoutStream (Connection S))
        → owing polls (arrive arrived socket) t ≡ owing ((now, arrived) ∷ polls) socket t
    unfolding arrive until_end
    owing-arrive now arrived polls socket t = at_end socket.ending socket.reads
      where
        at_end :
            (e : Ending) (reads : List Bytes)
            → owing polls (arrive arrived (record { reads = reads; ending = e })) t
              ≡ owing ((now, arrived) ∷ polls) (record { reads = reads; ending = e }) t
        at_end connected reads = sym (
            owed_arrived receive elapses t.stream reads arrived.reads
              (after_end arrived.ending (until_end polls)))
        at_end eof reads = refl
        at_end (broken e) reads = refl

    pub ends-arrive :
        (now : ℕ) (arrived : Socket) (polls : List (ℕ × Socket)) (reads : List Bytes) (e : Ending)
        → ends (arrive arrived (record { reads = reads; ending = e })).ending polls
          ≡ ends e ((now, arrived) ∷ polls)
    unfolding arrive ends
    ends-arrive now arrived polls reads connected = refl
    ends-arrive now arrived polls reads eof = refl
    ends-arrive now arrived polls reads (broken e) = refl

    -- A turn is in time, or closes the connection.
    pub turn-IsSession :
        (start : ℕ) (ending : Ending) (owes : List Bytes) (s : S) (now : ℕ) (arrived : Socket)
        (polls : List (ℕ × Socket)) (socket : Socket) (t : TimeoutStream (Connection S))
        (o : Poll (Option (Item Received)))
        → IsArmed start t
        → (polled receive elapses socket arrived t).0 ≡ some o
        → IsSession receive keep_alive start m ending owes s
            (in_time receive elapses now arrived polls socket t m o)
        → IsSession receive keep_alive start m ending owes s
            (serve receive elapses ((now, arrived) ∷ polls) socket t m)
    turn-IsSession start ending owes s now arrived polls socket t o set a rest =
        let turn = serve-turn receive elapses now arrived polls socket t m o a in
        subst (IsSession receive keep_alive start m ending owes s) (sym turn)
          (elim (Bool-cases (elapses now t.deadline (is_ready o))) [
            | inl e ↦ rw (e) (
                over-IsSession receive keep_alive m start ending owes s
                  (closed now (count_close (count_timeout m)))
                  (inl
                    (omega (arith, not_early now t.deadline (is_ready o) e, set.deadline), refl)))
            | inr e ↦ rw (e) rest
          ])

    -- The stream of a connection that has given its last frame ends at its next poll.
    pub drained-IsSession :
        (polls : List (ℕ × Socket)) (d : Decode) (left s : S) (start : ℕ)
        (t : TimeoutStream (Connection S)) (reads : List Bytes)
        → IsArmed start t
        → t.stream ≡ drained receive d left
        → reads ≡ []
        → IsSession receive keep_alive start m eof [] s
            (serve receive elapses polls (record { reads = reads; ending = eof }) t m)
    unfolding serve arrive
    drained-IsSession [] d left s start t reads set same emptied =
        over-IsSession receive keep_alive m start eof [] s (running t) set.deadline
    drained-IsSession ((now, arrived) ∷ polls) d left s start t reads set same emptied =
        let over : (poll_stream receive (record { reads = reads; ending = eof }) t.stream).0
            ≡ some (ready none) =
          (λ i. (poll_stream receive (record { reads = emptied i; ending = eof }) (same i)).0)
          ∙ drained-ends receive d left in
        turn-IsSession start eof [] s now arrived polls (record { reads = reads; ending = eof }) t
          (ready none) set over
          (over-IsSession receive keep_alive m start eof [] s (closed now (count_close m))
            (inr (refl, refl, inl refl)))
