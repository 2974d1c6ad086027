-- ===== src/Application/Start/Stops.antt =====
-- The end of the standard input (sqelf/src/main.rs) and of the server's loop.
use seq_input_gelf.Receive.Message.{Message}
use seq_input_gelf.Server.Received.{Received}
use seq_input_gelf.Server.Metrics.{Metrics}
use seq_input_gelf.Server.Loop.{Event}
use seq_input_gelf.Server.Loop
use seq_input_gelf.Application.Start.{Read, count, read_failed}

-- A read that ends the thread: the end of the input, or an error.
pub data IsEnd : Read → Type 0 where
  eof : IsEnd (count 0)
  broken : IsEnd read_failed
