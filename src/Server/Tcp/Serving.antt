-- ===== src/Server/Tcp/Serving.antt =====
-- `Listen` of sqelf/src/server/tcp.rs over connections that are polled for their frames: the server of
-- all connections at once. Which connection is accepted or polled next, when, and what has arrived for
-- it or ended it, is an argument.
pub mod Peers
pub mod Outcomes
pub mod Own
pub mod Kept
pub mod Alone
use seq_input_gelf.Common.{
  ℕ, suc, List, [], ◌∷◌, ◌++◌, Option, none, some, if◌then◌else◌, ltb, length, ◌==◌, nat_eq, Bool,
  true, false,
}
use seq_input_gelf.Receive.Outcome.{Bytes, Result}
use seq_input_gelf.Receive.Message.{Message}
use seq_input_gelf.Server.Received.{Received}
use seq_input_gelf.Server.Metrics.{Metrics}
use seq_input_gelf.Server.Tcp.Decode.{Connection}
use seq_input_gelf.Server.Tcp.Decode.Stream.{opened}
use seq_input_gelf.Server.Tcp.Connections.{TimeoutStream, Listen, fill, poll_conn}
use seq_input_gelf.Server.Tcp.Timed.{Socket, connected, arrive, poll_stream, poll_timeout}

-- A stream of frames with its socket; the number tells the connections apart.
pub record Peer (S : Type 0) : Type 0 where
  pub id : ℕ
  pub socket : Socket
  pub connection : Connection S

-- What the listener does next: it accepts the next connection, or a connection is polled.
pub data Turn : Type 0 where
  accept : (now : ℕ) → Turn
  poll : (now : ℕ) → (id : ℕ) → (arrived : Socket) → Turn

-- A connection of the set, and the others.
unfoldable pub take_peer :
    {S : Type 0}
    → ℕ
    → List (TimeoutStream (Peer S))
    → Option (TimeoutStream (Peer S) × List (TimeoutStream (Peer S)))
take_peer id [] = none
take_peer id (t ∷ rest) =
    if t.stream.id == id
    then some (t, rest)
    else elim (take_peer id rest) [ none ↦ none | some (u, others) ↦ some (u, t ∷ others) ]

module _ {S : Type 0} (receive : Bytes → S → S × Result (Option Message))
    (elapses : ℕ → ℕ → Bool → Bool) where
  -- A poll of the connection `t`, the others being those of `l`; `none` if its decoder panics.
  unfoldable pub poll_peer :
      ℕ
      → Socket
      → TimeoutStream (Peer S)
      → Listen (Peer S)
      → Option (Listen (Peer S) × Option Received)
  unfolding arrive poll_stream poll_timeout poll_conn
  poll_peer now arrived t l =
      let there = arrive arrived t.stream.socket in
      let (a, (reads, c)) = poll_stream receive there t.stream.connection in
      let peer = record t.stream { socket = record there { reads = reads }; connection = c } in
      elim a [
        | none ↦ none
        | some outcome ↦ some (
            poll_conn now (poll_timeout elapses now t.deadline outcome peer)
              (record t { stream = peer }) l)
      ]

  module _ (max_size_bytes : ℕ) (metrics : Metrics) (receiver : S) where
    -- The connection that is accepted as the `n`th.
    unfoldable pub peer : ℕ → Peer S
    unfolding opened
    peer n = record {
      id = n;
      socket = record { reads = []; ending = connected };
      connection = opened receive max_size_bytes metrics receiver;
    }

    -- The items of all connections, each with the connection and the time. A panic ends the server.
    unfoldable pub serve_all : List Turn → ℕ → Listen (Peer S) → List (ℕ × (ℕ × Received))
    unfolding fill take_peer poll_peer peer
    serve_all [] n l = []
    serve_all (accept now ∷ turns) n l = elim (ltb (length l.connections) l.max) [
      | true ↦ serve_all turns (suc n) (fill now (peer n) l)
      | false ↦ serve_all turns n l
    ]
    serve_all (poll now id arrived ∷ turns) n l = elim (take_peer id l.connections) [
      | none ↦ serve_all turns n l
      | some (t, others) ↦ elim (poll_peer now arrived t (record l { connections = others })) [
        | none ↦ []
        | some (l', none) ↦ serve_all turns n l'
        | some (l', some x) ↦ (id, (now, x)) ∷ serve_all turns n l'
      ]
    ]
