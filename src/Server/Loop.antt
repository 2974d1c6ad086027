-- ===== src/Server/Loop.antt =====
-- The loop of `build` in sqelf/src/server/mod.rs: `select!` over the stream of the receiver, the handle
-- and the signal. Which of them is ready is the order of the events; the processor is a parameter with
-- a state of its own.
pub mod Counted
pub mod Logged
use seq_input_gelf.Common.{ℕ, Bool, true, false, List, [], ◌∷◌, if◌then◌else◌}
use seq_input_gelf.Diagnostics.{increment}
use seq_input_gelf.Receive.Outcome.{Error}
use seq_input_gelf.Receive.Message.{Message}
use seq_input_gelf.Server.Received.{Received, incomplete, complete, error}
use seq_input_gelf.Server.Metrics.{Metrics}

-- What `select!` may pick.
pub data Event : Type 0 where
  -- `incoming.next()` gives `Some(Ok(_))`, `Some(Err(_))` or `None`
  received : Received → Event
  failed : Event
  ended : Event
  -- the handle is closed, or dropped
  close : Event
  ctrl_c : Event

pub data Status : Type 0 where
  running : Status
  -- the loop was left
  stopped : Status
  -- `unreachable!`
  panicked : Status

pub record Server (P : Type 0) : Type 0 where
  pub metrics : Metrics
  pub processor : P
  pub status : Status

abbrev pub count_receive_ok : Metrics → Metrics
count_receive_ok m = record m { receive_ok = increment m.min_level m.receive_ok }

abbrev pub count_receive_err : Metrics → Metrics
count_receive_err m = record m { receive_err = increment m.min_level m.receive_err }

abbrev pub count_process_ok : Metrics → Metrics
count_process_ok m = record m { process_ok = increment m.min_level m.process_ok }

abbrev pub count_process_err : Metrics → Metrics
count_process_err m = record m { process_err = increment m.min_level m.process_err }

module _ {P : Type 0} (process : Message → P → P × Bool) where
  -- A processed message: `true` stands for `Ok(())`.
  unfoldable pub handle : Message → Server P → Server P
  handle msg s =
      let m = count_receive_ok s.metrics in
      let (p, done) = process msg s.processor in
      record s { metrics = if done then count_process_ok m else count_process_err m; processor = p }

  -- One turn of the loop.
  unfoldable pub turn : Event → Server P → Server P
  unfolding handle
  turn (received (complete msg)) s = handle msg s
  turn (received incomplete) s = s
  turn (received (error e)) s = record s { metrics = count_receive_err s.metrics }
  turn failed s = record s { metrics = count_receive_err s.metrics; status = stopped }
  turn ended s = record s { status = panicked }
  turn close s = record s { status = stopped }
  turn ctrl_c s = record s { status = stopped }

  -- The loop, which no event reaches once it was left.
  unfoldable pub run : List Event → Server P → Server P
  run [] s = s
  run (e ∷ es) s = elim s.status [ running ↦ run es (turn e s) | stopped ↦ s | panicked ↦ s ]
