-- ===== src/Server/Tcp/Timed/Turns.antt =====
-- A poll of a `TimeoutStream` of sqelf/src/server/tcp.rs, by what its frames and its timeout say.
use seq_input_gelf.Common.{
  ℕ, ◌+◌, ◌≡◌, refl, Bool, true, false, List, [], ◌∷◌, Option, none, some, if◌then◌else◌,
  Bool-cases, inl, inr,
}
use seq_input_gelf.Receive.Outcome.{Bytes, Result}
use seq_input_gelf.Receive.Message.{Message}
use seq_input_gelf.Server.Metrics.{Metrics}
use seq_input_gelf.Server.Received.{Received}
use seq_input_gelf.Server.Tcp.Decode.{Connection}
use seq_input_gelf.Server.Tcp.Connections.{
  TimeoutStream, Item, valid, failed, Poll, ready, pending, poll_next, count_timeout, count_close,
  count_receive_err,
}
use seq_input_gelf.Server.Tcp.Timed.{
  Socket, arrive, Status, closed, errored, Framed, after_poll, poll_stream, poll_timeout, serve,
}

-- A session with an item more.
abbrev pub after_item :
    {S : Type 0} → ℕ × Received → List (ℕ × Received) × Status S → List (ℕ × Received) × Status S
after_item x (items, status) = (x ∷ items, status)

abbrev pub is_ready : {A : Type 0} → Poll A → Bool
is_ready (ready x) = true
is_ready pending = false

module _ {S : Type 0} (receive : Bytes → S → S × Result (Option Message))
    (elapses : ℕ → ℕ → Bool → Bool) where
  abbrev pub polled : Socket → Socket → TimeoutStream (Connection S) → Framed receive
  polled socket arrived t = poll_stream receive (arrive arrived socket) t.stream

  -- What is left in the socket, and the stream while it waits for an item.
  abbrev pub unread : Socket → Socket → TimeoutStream (Connection S) → Socket
  unread socket arrived t = record (arrive arrived socket) { reads = (polled socket arrived t).1.0 }

  abbrev pub kept : Socket → Socket → TimeoutStream (Connection S) → TimeoutStream (Connection S)
  kept socket arrived t = record t { stream = (polled socket arrived t).1.1 }

  abbrev pub reset :
      ℕ → Socket → Socket → TimeoutStream (Connection S) → TimeoutStream (Connection S)
  reset now socket arrived t = record (kept socket arrived t) { deadline = now + t.keep_alive }

  -- The session once the stream was polled and the timeout has not elapsed.
  abbrev pub in_time :
      ℕ
      → Socket
      → List (ℕ × Socket)
      → Socket
      → TimeoutStream (Connection S)
      → Metrics
      → Poll (Option (Item Received))
      → List (ℕ × Received) × Status S
  in_time now arrived polls socket t m pending =
      serve receive elapses polls (unread socket arrived t) (kept socket arrived t) m
  in_time now arrived polls socket t m (ready none) = ([], closed now (count_close m))
  in_time now arrived polls socket t m (ready (some (failed e))) =
      ([], errored now e (count_close (count_receive_err m)))
  in_time now arrived polls socket t m (ready (some (valid x))) =
      after_item (now, x)
        (serve receive elapses polls (unread socket arrived t) (reset now socket arrived t) m)

  -- A poll does what its stream comes to, or the timeout elapses.
  pub serve-turn :
      (now : ℕ) (arrived : Socket) (polls : List (ℕ × Socket)) (socket : Socket)
      (t : TimeoutStream (Connection S)) (m : Metrics) (o : Poll (Option (Item Received)))
      → (polled socket arrived t).0 ≡ some o
      → serve receive elapses ((now, arrived) ∷ polls) socket t m ≡ (
          if elapses now t.deadline (is_ready o)
          then ([], closed now (count_close (count_timeout m)))
          else in_time now arrived polls socket t m o)
  unfolding serve poll_timeout poll_next after_poll
  serve-turn now arrived polls socket t m pending a =
      elim (Bool-cases (elapses now t.deadline false)) [
        | inl e ↦ rw (a, serve) (rw (e) refl)
        | inr e ↦ rw (a, serve) (rw (e) refl)
      ]
  serve-turn now arrived polls socket t m (ready none) a =
      elim (Bool-cases (elapses now t.deadline true)) [
        | inl e ↦ rw (a, serve) (rw (e) refl)
        | inr e ↦ rw (a, serve) (rw (e) refl)
      ]
  serve-turn now arrived polls socket t m (ready (some (failed x))) a =
      elim (Bool-cases (elapses now t.deadline true)) [
        | inl e ↦ rw (a, serve) (rw (e) refl)
        | inr e ↦ rw (a, serve) (rw (e) refl)
      ]
  serve-turn now arrived polls socket t m (ready (some (valid x))) a =
      elim (Bool-cases (elapses now t.deadline true)) [
        | inl e ↦ rw (a, serve) (rw (e) refl)
        | inr e ↦ rw (a, serve) (rw (e) refl)
      ]
