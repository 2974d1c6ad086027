-- ===== src/Tests/Server.antt =====
-- The server of sqelf/src/server on a stream of bytes and on a run of its loop.
use seq_input_gelf.Common.{
  ℕ, suc, ◌≡◌, refl, Bool, false, List, [], ◌∷◌, Option, none, some, ◌+◌, ◌%◌, if◌then◌else◌,
}
use seq_input_gelf.Receive.Outcome.{Bytes, Result, ok}
use seq_input_gelf.Receive.Message.{Message, single}
use seq_input_gelf.Server.Received.{Received, complete, incomplete, into_received}
use seq_input_gelf.Common.{arith}
use seq_input_gelf.Diagnostics.{Level, includes, usize_mod}
use seq_input_gelf.Server.Metrics.{Metrics}
use seq_input_gelf.Server.Tcp.Decode.Segments.{frames}
use seq_input_gelf.Server.Tcp.Decode.Stream
use seq_input_gelf.Server.Tcp.Decode.Stream.{
  arrive, poll, arrived, feed, opened, run-total, run-frames,
}
use seq_input_gelf.Server.Tcp.Decode.Eof.{run-eof}
use seq_input_gelf.Server.Tcp.Decode.{
  Connection, item, decode_eof, decode, new, next_frame, position, finish,
}
use seq_input_gelf.Server.Tcp.Connections.{
  TimeoutStream, elapsed, Listen, listen, fill, poll_conn, accept, poll, Steps, stay, next,
}
use seq_input_gelf.Server.Tcp.Connections.Polled.{Pass, poll_all}
use seq_input_gelf.Server.Tcp.Connections.Bounded.{IsBounded, poll_all-IsBounded}
use seq_input_gelf.Server.Loop.Logged.{run_log}
use seq_input_gelf.Server.Loop.Logged.Errors.{errors, run-errors}
use seq_input_gelf.Server.Loop.Logged.Failures.{failures, counted}
use seq_input_gelf.Diagnostics.Events.{DiagnosticEvent, Failure, root}
use seq_input_gelf.Server.Tcp.Connections.Counted.{Inv, Steps-Inv}
use seq_input_gelf.Server.Loop
use seq_input_gelf.Server.Loop.Counted.{
  messages, process_all, IsBalanced, run-processes, run-IsBalanced, started,
}
use seq_input_gelf.Server.Loop.{received, close}

abbrev pub metrics : Metrics
metrics = record {
  min_level = 0;
  receive_ok = 0;
  receive_err = 0;
  process_ok = 0;
  process_err = 0;
  tcp_conn_accept = 0;
  tcp_conn_close = 0;
  tcp_conn_timeout = 0;
  tcp_msg_overflow = 0;
}

-- A receiver that counts its frames, each of which is a message.
abbrev pub receive : Bytes → ℕ → ℕ × Result (Option Message)
receive bytes n = (suc n, ok (some (single none bytes)))

-- A frame in two reads, one that is too long, and a short one.
abbrev pub reads : List Stream.Event
reads =
    arrive (1 ∷ 2 ∷ [])
    ∷ poll
    ∷ arrive (0 ∷ 3 ∷ 4 ∷ 5 ∷ 6 ∷ 0 ∷ 7 ∷ 0 ∷ [])
    ∷ poll
    ∷ poll
    ∷ poll
    ∷ []

abbrev pub items : List (Option Received)
items = some (complete (single none (1 ∷ 2 ∷ []))) ∷ some (complete (single none (7 ∷ []))) ∷ []

abbrev pub settled : Connection ℕ
settled = (Stream.run receive reads (opened receive 3 metrics 0)).0

run-total_example :
    (c' : Connection ℕ) × (l : List (Option Received)) × (Stream.run receive reads
        (opened receive 3 metrics 0)
      ≡ (c', some l))
run-total_example = run-total receive 3 metrics 0 reads

run-frames_example : feed receive (frames 3 false (arrived reads)) 0 ≡ (settled.receiver, items)
unfolding new opened Stream.run decode next_frame position finish into_received
run-frames_example = run-frames receive 3 metrics 0 reads settled items refl refl

-- A frame that has not ended.
abbrev open_reads : List Stream.Event
open_reads = arrive (1 ∷ 0 ∷ 2 ∷ 3 ∷ []) ∷ poll ∷ []

abbrev open_end : Connection ℕ
open_end = (Stream.run receive open_reads (opened receive 3 metrics 0)).0

run-eof_example :
    (x : Received) × ((decode_eof receive open_end).1 ≡ item (some x))
    × (feed receive (frames 3 false (1 ∷ 0 ∷ 2 ∷ 3 ∷ 0 ∷ [])) 0 ≡ (
      (decode_eof receive open_end).0.receiver,
      some (complete (single none (1 ∷ []))) ∷ some x ∷ [],
    ))
    × ((decode_eof receive open_end).0.src ≡ [])
unfolding new opened Stream.run decode next_frame position finish into_received arrived
run-eof_example =
    run-eof receive 3 metrics 0 open_reads open_end (some (complete (single none (1 ∷ []))) ∷ []) 2
      (3 ∷ []) refl refl refl

-- A processor that keeps what it was given, and fails on every message.
abbrev pub process : Message → List Message → List Message × Bool
process msg msgs = (msg ∷ msgs, false)

abbrev events : List Loop.Event
events =
    received (complete (single none (1 ∷ [])))
    ∷ received incomplete
    ∷ received (complete (single none (2 ∷ [])))
    ∷ close
    ∷ received incomplete
    ∷ []

run-processes_example :
    (Loop.run process events (started metrics [])).processor
    ≡ process_all process (messages events) []
run-processes_example = run-processes process events metrics []

balanced : IsBalanced metrics
unfolding IsBalanced
balanced = refl

run-IsBalanced_example : IsBalanced (Loop.run process events (started metrics [])).metrics
run-IsBalanced_example = run-IsBalanced process events metrics [] balanced

-- A listener that keeps one connection, and a connection to the stream 7.
abbrev listener : Listen ℕ
listener = record { connections = []; max = 1; keep_alive = 120; metrics = metrics }

abbrev connected : Listen ℕ
connected = fill 3 7 listener

abbrev connection : TimeoutStream ℕ
connection = record { keep_alive = 120; deadline = 123; stream = 7 }

abbrev closed : Listen ℕ
closed = (poll_conn {T = ℕ} 123 elapsed connection (record connected { connections = [] })).0

-- The connection is accepted, and times out.
accepted_and_closed : Steps ℕ ℕ listener closed
unfolding fill poll_conn
accepted_and_closed =
    next listener connected closed (accept 3 7 listener (omega arith)) (
      next connected closed closed (poll 123 elapsed [] [] connection connected refl) (stay closed))

listener-Inv : Inv listener
unfolding includes
listener-Inv = record { bounded = omega arith; counting = refl; balanced = refl }

Steps-Inv_example : Inv closed
Steps-Inv_example = Steps-Inv listener closed accepted_and_closed listener-Inv

-- A connection that arrives while another one is kept waits until that one times out.
abbrev calls : List (Bool × List (Pass ℕ ℕ))
calls =
    (false, record { incoming = (3, 7) ∷ (3, 8) ∷ []; polled = none } ∷ [])
    ∷ (
      false,
      record { incoming = []; polled = some (0, (123, elapsed)) }
          ∷ record { incoming = (123, 8) ∷ []; polled = none }
          ∷ [],
    )
    ∷ []

poll_all-IsBounded_example :
    Steps ℕ ℕ (listen 120 1 metrics) (poll_all calls (listen 120 1 metrics))
    × IsBounded 1 (poll_all calls (listen 120 1 metrics))
poll_all-IsBounded_example = poll_all-IsBounded 120 1 metrics calls

abbrev refused : Failure
refused = root "refused"

-- Both messages fail, and the close after them is no failure.
abbrev logged : List DiagnosticEvent
logged = run_log process (λ e. refused) (λ msg p. refused) refused events (started metrics [])

run-errors_example :
    (errors logged ≡ failures process events [])
    × (counted (Loop.run process events (started metrics [])).metrics % usize_mod
        ≡ (counted metrics
            + (if includes metrics.min_level Level.debug then failures process events [] else 0))
          % usize_mod)
run-errors_example = run-errors process (λ e. refused) (λ msg p. refused) refused events metrics []
