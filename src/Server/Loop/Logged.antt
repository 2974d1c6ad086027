-- ===== src/Server/Loop/Logged.antt =====
-- What the loop of sqelf/src/server/mod.rs writes to the log of the process, turn by turn.
pub mod Errors
pub mod Failures
use seq_input_gelf.Common.{
  ℕ, Bool, true, false, List, [], ◌∷◌, ◌++◌, Option, none, some, if◌then◌else◌,
}
use seq_input_gelf.Diagnostics.Events.{Failure, DiagnosticEvent, emit, emit_err}
use seq_input_gelf.Receive.Outcome.{Error}
use seq_input_gelf.Receive.Message.{Message}
use seq_input_gelf.Server.Received.{Received, incomplete, complete, error}
use seq_input_gelf.Server.Loop.{
  Event, received, failed, ended, close, ctrl_c, Server, running, stopped, panicked, turn,
}

abbrev pub written : Option DiagnosticEvent → List DiagnosticEvent
written none = []
written (some event) = event ∷ []

module _ {P : Type 0} (process : Message → P → P × Bool) (refused : Error → Failure)
    (failure : Message → P → Failure) (broken : Failure) where
  -- One turn of the loop. `refused` and `failure` are the errors of the receiver and of the processor
  -- as they are displayed, and `broken` is that of the stream.
  unfoldable pub turn_log : Event → Server P → List DiagnosticEvent
  unfolding emit emit_err
  turn_log (received (complete msg)) s = elim (process msg s.processor).1 [
    | true ↦ []
    | false ↦
        written (emit_err s.metrics.min_level (failure msg s.processor) "GELF processing failed")
  ]
  turn_log (received incomplete) s = []
  turn_log (received (error e)) s =
      written (emit_err s.metrics.min_level (refused e) "GELF processing failed")
  turn_log failed s =
      written (emit_err s.metrics.min_level broken "GELF processing failed irrecoverably")
  turn_log ended s = []
  turn_log close s = written (emit s.metrics.min_level "Handle closed; shutting down")
  turn_log ctrl_c s =
      written (emit s.metrics.min_level "Termination signal received; shutting down")

  -- After the loop.
  unfoldable pub stop_log : Server P → List DiagnosticEvent
  unfolding emit
  stop_log s = elim s.status [
    | running ↦ []
    | stopped ↦ written (emit s.metrics.min_level "Stopping GELF server")
    | panicked ↦ []
  ]

  unfoldable pub run_log : List Event → Server P → List DiagnosticEvent
  unfolding turn turn_log stop_log
  run_log [] s = stop_log s
  run_log (e ∷ es) s = elim s.status [
    | running ↦ turn_log e s ++ run_log es (turn process e s)
    | stopped ↦ stop_log s
    | panicked ↦ stop_log s
  ]
