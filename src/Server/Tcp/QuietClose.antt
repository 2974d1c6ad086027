-- ===== src/Server/Tcp/QuietClose.antt =====
-- `QuietClose` of sqelf/src/server/tcp.rs: a TLS stream whose closing is no error.
use seq_input_gelf.Common.{ℕ}
use seq_input_gelf.Server.Tcp.Connections.{Poll, ready, pending}

-- `io::ErrorKind`, as far as it is told apart.
pub data ErrorKind : Type 0 where
  unexpected_eof : ErrorKind
  connection_reset : ErrorKind
  other : ℕ → ErrorKind

-- `io::Result<()>`.
pub data IoResult : Type 0 where
  ok : IoResult
  err : ErrorKind → IoResult

-- `poll_read`, on what the inner stream's gives.
unfoldable pub poll_read : Poll IoResult → Poll IoResult
poll_read (ready ok) = ready ok
poll_read pending = pending
poll_read (ready (err unexpected_eof)) = ready ok
poll_read (ready (err connection_reset)) = ready ok
poll_read (ready (err (other e))) = ready (err (other e))
