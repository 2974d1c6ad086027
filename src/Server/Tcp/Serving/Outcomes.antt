-- ===== src/Server/Tcp/Serving/Outcomes.antt =====
-- A poll of a connection among others, in sqelf/src/server/tcp.rs, does what a poll of it alone does.
use seq_input_gelf.Common.{
  ℕ, ◌+◌, ◌≡◌, refl, ap, ◌∙◌, List, [], ◌∷◌, Option, none, some, if◌then◌else◌, nat_eq, Bool, true,
  false,
}
use seq_input_gelf.Receive.Outcome.{Bytes, Result}
use seq_input_gelf.Receive.Message.{Message}
use seq_input_gelf.Server.Received.{Received}
use seq_input_gelf.Server.Metrics.{Metrics}
use seq_input_gelf.Server.Tcp.Decode.{Connection}
use seq_input_gelf.Server.Tcp.Decode.Stream.{IsValid}
use seq_input_gelf.Server.Tcp.Connections.{
  TimeoutStream, Item, valid, failed, Poll, ready, pending, Listen, poll_conn, poll_next, settle,
  count_timeout, count_close, count_receive_err,
}
use seq_input_gelf.Server.Tcp.Timed.{Socket, arrive, Status, closed, poll_timeout, serve}
use seq_input_gelf.Server.Tcp.Timed.Framed.{poll_stream-Streams, some_outcome}
use seq_input_gelf.Server.Tcp.Timed.Turns.{polled, unread, is_ready, in_time, serve-turn}
use seq_input_gelf.Server.Tcp.Serving.{Peer, poll_peer}

module _ {S : Type 0} (receive : Bytes → S → S × Result (Option Message))
    (elapses : ℕ → ℕ → Bool → Bool) where
  abbrev pub stream_of : TimeoutStream (Peer S) → TimeoutStream (Connection S)
  stream_of t = record {
    keep_alive = t.keep_alive;
    deadline = t.deadline;
    stream = t.stream.connection;
  }

  abbrev pub IsPeer : TimeoutStream (Peer S) → Type 0
  IsPeer t = IsValid receive t.stream.connection

  -- The connection after a poll, if it is left open.
  abbrev pub left_open : Socket → TimeoutStream (Peer S) → TimeoutStream (Peer S)
  left_open arrived t = record t {
    stream = record t.stream {
      socket = unread receive elapses t.stream.socket arrived (stream_of t);
      connection = (polled receive elapses t.stream.socket arrived (stream_of t)).1.1;
    };
  }

  -- The items of a connection that is open, or closed.
  abbrev pub expected :
      List (ℕ × Socket) → Metrics → Option (TimeoutStream (Peer S)) → List (ℕ × Received)
  expected polls m none = []
  expected polls m (some t) = (serve receive elapses polls t.stream.socket (stream_of t) m).0

  abbrev pub with_item : ℕ → Option Received → List (ℕ × Received) → List (ℕ × Received)
  with_item now none items = items
  with_item now (some x) items = (now, x) ∷ items

  abbrev pub put :
      Option (TimeoutStream (Peer S))
      → List (TimeoutStream (Peer S))
      → List (TimeoutStream (Peer S))
  put none others = others
  put (some t) others = t ∷ others

  abbrev pub IsNext : ℕ → Option (TimeoutStream (Peer S)) → Type 0
  IsNext id none = Unit
  IsNext id (some t) = (t.stream.id ≡ id) × IsPeer t

  -- A poll of a connection: what it leaves, and gives, is what its session would.
  pub record Outcome (now : ℕ) (arrived : Socket) (t : TimeoutStream (Peer S)) (l : Listen (Peer S))
      (m : Metrics) : Type 0 where
    pub listener : Listen (Peer S)
    pub out : Option Received
    pub left : Option (TimeoutStream (Peer S))
    pub polls : poll_peer receive elapses now arrived t l ≡ some (listener, out)
    pub connections : listener.connections ≡ put left l.connections
    pub next : IsNext t.stream.id left
    pub same_max : listener.max ≡ l.max
    pub same_keep_alive : listener.keep_alive ≡ l.keep_alive
    pub served :
        (later : List (ℕ × Socket))
        → expected ((now, arrived) ∷ later) m (some t) ≡ with_item now out (expected later m left)

  -- The items of the session of a connection, by what its next poll comes to.
  turn_served :
      (now : ℕ) (arrived : Socket) (t : TimeoutStream (Peer S)) (m : Metrics)
      (later : List (ℕ × Socket)) (o : Poll (Option (Item Received)))
      → (polled receive elapses t.stream.socket arrived (stream_of t)).0 ≡ some o
      → expected ((now, arrived) ∷ later) m (some t)
        ≡ (if elapses now t.deadline (is_ready o)
            then ([], closed now (count_close (count_timeout m)))
            else in_time receive elapses now arrived later t.stream.socket (stream_of t) m o).0
  turn_served now arrived t m later o a =
      ap (λ (r : List (ℕ × Received) × Status S). r.0)
        (serve-turn receive elapses now arrived later t.stream.socket (stream_of t) m o a)

  -- A poll that does not panic does what its stream comes to.
  turned-Outcome :
      (now : ℕ) (arrived : Socket) (t : TimeoutStream (Peer S)) (l : Listen (Peer S)) (m : Metrics)
      (o : Poll (Option (Item Received)))
      → IsPeer (left_open arrived t)
      → (polled receive elapses t.stream.socket arrived (stream_of t)).0 ≡ some o
      → (b : Bool) → elapses now t.deadline (is_ready o) ≡ b
      → Outcome now arrived t l m
  unfolding poll_peer poll_timeout poll_conn poll_next settle
  turned-Outcome now arrived t l m pending v a true e = record {
    listener = record l { metrics = count_close (count_timeout l.metrics) };
    out = none;
    left = none;
    polls = rw (a, poll_peer) (rw (e) refl);
    connections = refl;
    next = tt;
    same_max = refl;
    same_keep_alive = refl;
    served = λ later. turn_served now arrived t m later pending a ∙ rw (e) refl;
  }
  turned-Outcome now arrived t l m pending v a false e = record {
    listener = record l { connections = left_open arrived t ∷ l.connections };
    out = none;
    left = some (left_open arrived t);
    polls = rw (a, poll_peer) (rw (e) refl);
    connections = refl;
    next = (refl, v);
    same_max = refl;
    same_keep_alive = refl;
    served = λ later. turn_served now arrived t m later pending a ∙ rw (e) refl;
  }
  turned-Outcome now arrived t l m (ready none) v a true e = record {
    listener = record l { metrics = count_close (count_timeout l.metrics) };
    out = none;
    left = none;
    polls = rw (a, poll_peer) (rw (e) refl);
    connections = refl;
    next = tt;
    same_max = refl;
    same_keep_alive = refl;
    served = λ later. turn_served now arrived t m later (ready none) a ∙ rw (e) refl;
  }
  turned-Outcome now arrived t l m (ready none) v a false e = record {
    listener = record l { metrics = count_close l.metrics };
    out = none;
    left = none;
    polls = rw (a, poll_peer) (rw (e) refl);
    connections = refl;
    next = tt;
    same_max = refl;
    same_keep_alive = refl;
    served = λ later. turn_served now arrived t m later (ready none) a ∙ rw (e) refl;
  }
  turned-Outcome now arrived t l m (ready (some (failed x))) v a true e = record {
    listener = record l { metrics = count_close (count_timeout l.metrics) };
    out = none;
    left = none;
    polls = rw (a, poll_peer) (rw (e) refl);
    connections = refl;
    next = tt;
    same_max = refl;
    same_keep_alive = refl;
    served = λ later. turn_served now arrived t m later (ready (some (failed x))) a ∙ rw (e) refl;
  }
  turned-Outcome now arrived t l m (ready (some (failed x))) v a false e = record {
    listener = record l { metrics = count_close (count_receive_err l.metrics) };
    out = none;
    left = none;
    polls = rw (a, poll_peer) (rw (e) refl);
    connections = refl;
    next = tt;
    same_max = refl;
    same_keep_alive = refl;
    served = λ later. turn_served now arrived t m later (ready (some (failed x))) a ∙ rw (e) refl;
  }
  turned-Outcome now arrived t l m (ready (some (valid x))) v a true e = record {
    listener = record l { metrics = count_close (count_timeout l.metrics) };
    out = none;
    left = none;
    polls = rw (a, poll_peer) (rw (e) refl);
    connections = refl;
    next = tt;
    same_max = refl;
    same_keep_alive = refl;
    served = λ later. turn_served now arrived t m later (ready (some (valid x))) a ∙ rw (e) refl;
  }
  turned-Outcome now arrived t l m (ready (some (valid x))) v a false e = record {
    listener = record l {
      connections = record (left_open arrived t) { deadline = now + t.keep_alive } ∷ l.connections;
    };
    out = some x;
    left = some (record (left_open arrived t) { deadline = now + t.keep_alive });
    polls = rw (a, poll_peer) (rw (e) refl);
    connections = refl;
    next = (refl, v);
    same_max = refl;
    same_keep_alive = refl;
    served = λ later. turn_served now arrived t m later (ready (some (valid x))) a ∙ rw (e) refl;
  }

  pub poll_peer-Outcome :
      (now : ℕ) (arrived : Socket) (t : TimeoutStream (Peer S)) (l : Listen (Peer S)) (m : Metrics)
      → IsPeer t
      → Outcome now arrived t l m
  poll_peer-Outcome now arrived t l m v =
      let there = arrive arrived t.stream.socket in
      let (u, _) = poll_stream-Streams receive there t.stream.connection v in
      let (o, a) = some_outcome receive there t.stream.connection v in
      turned-Outcome now arrived t l m o u a (elapses now t.deadline (is_ready o)) refl
