-- ===== src/Server/Tcp/Accept.antt =====
-- `Server::build` of sqelf/src/server/tcp.rs up to `listen`: which connections become streams of
-- frames, and how these start. The handshake of TLS is a parameter.
use seq_input_gelf.Common.{ℕ, [], Option, none, some}
use seq_input_gelf.Server.Metrics.{Metrics}
use seq_input_gelf.Server.Tcp.Connections.{Poll, ready, pending}
use seq_input_gelf.Server.Tcp.Decode.{Connection, new}

-- `io::Result<TcpStream>`, of which the error is never looked at.
pub data Accepted (C : Type 0) : Type 0 where
  established : C → Accepted C
  broken : Accepted C

-- `TcpIncoming::poll_next`: the listener's stream never ends.
unfoldable pub poll_incoming : {C : Type 0} → Poll (Accepted C) → Poll (Option (Accepted C))
poll_incoming (ready conn) = ready (some conn)
poll_incoming pending = pending

-- A `FramedRead`: the connection that it reads from, and its decoder with the buffer and a receiver of
-- its own.
pub record FramedRead (C S : Type 0) : Type 0 where
  pub conn : C
  pub connection : Connection S

module _ {S : Type 0} (max_size_bytes : ℕ) (metrics : Metrics) (receive : S) where
  -- `accept_protocol`; the state of `receive` is cloned. The timeout is put around the stream where
  -- the listener takes it.
  unfoldable pub accept_protocol : {C : Type 0} → C → Option (FramedRead C S)
  unfolding new
  accept_protocol conn = some (record {
    conn = conn;
    connection = record { decoder = new max_size_bytes metrics; src = []; receiver = receive };
  })

  -- `accept`.
  unfoldable pub accept : {C : Type 0} → Accepted C → Option (FramedRead C S)
  unfolding accept_protocol
  accept (established conn) = accept_protocol conn
  accept broken = none

  -- `accept_tls`, over `TlsAcceptor::accept`.
  unfoldable pub accept_tls : {C T : Type 0} → (C → Option T) → Accepted C → Option (FramedRead T S)
  unfolding accept_protocol
  accept_tls handshake (established conn) = elim (handshake conn) [
    | none ↦ none
    | some stream ↦ accept_protocol stream
  ]
  accept_tls handshake broken = none
