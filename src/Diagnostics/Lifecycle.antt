-- ===== src/Diagnostics/Lifecycle.antt =====
-- `init` and `stop` of sqelf/src/diagnostics.rs, and the thread that samples the metrics between them.
pub mod Stopped
use seq_input_gelf.Common.{
  ℕ, zero, suc, ◌+◌, ◌≡◌, Bool, true, false, Option, none, some, if◌then◌else◌,
}
use seq_input_gelf.Diagnostics.{Level, includes, set_min_level}
use seq_input_gelf.Config as Configuration

-- The thread of the metrics with its end of the channel: the messages in it, whether its sender is
-- still there, whether the thread runs, and how often it has emitted the metrics.
pub record Worker : Type 0 where
  pub sent : ℕ
  pub connected : Bool
  pub running : Bool
  pub emitted : ℕ

-- `Diagnostics`: the sender and the handle are those of the worker.
pub record Diagnostics : Type 0 where
  pub metrics : Option Worker

-- The statics `MIN_LEVEL` and `DIAGNOSTICS`.
pub record Process : Type 0 where
  pub min_level : ℕ
  pub diagnostics : Option Diagnostics

abbrev pub spawned : Worker
spawned = record { sent = 0; connected = true; running = true; emitted = 0 }

pub data Started : Type 0 where
  ready : Process → Started
  -- "GELF diagnostics have already been initialized"
  panicked : Started

unfoldable pub init : Configuration.Diagnostics → Process → Started
unfolding set_min_level includes
init config s = elim s.diagnostics [
  | some _ ↦ panicked
  | none ↦
      let min_level = set_min_level config.min_level in
      let metrics = if includes min_level Level.debug then some spawned else none in
      ready (record { min_level = min_level; diagnostics = some (record { metrics = metrics }) })
]

-- `tx.send(())`, which fails once the thread has dropped its end.
unfoldable pub send : Worker → Option Worker
send w = if w.running then some (record w { sent = w.sent + 1 }) else none

-- What `stop` does: it returns, fails at the `?` of `send`, or waits in `join` for the thread.
pub data Stopping : Type 0 where
  returned : Stopping
  send_failed : Stopping
  joining : Worker → Stopping

unfoldable pub stop_metrics : Diagnostics → Stopping
unfolding send
stop_metrics d = elim d.metrics [
  | none ↦ returned
  | some w ↦ elim (send w) [ none ↦ send_failed | some w' ↦ joining w' ]
]

unfoldable pub stop : Process → Process × Stopping
unfolding stop_metrics
stop s = elim s.diagnostics [
  | none ↦ (s, returned)
  | some d ↦ (record s { diagnostics = none }, stop_metrics d)
]

-- `Drop::drop`: the thread is told to end, if it is there, and the sender goes.
unfoldable pub drop : Diagnostics → Diagnostics
drop d = record {
  metrics = elim d.metrics [
    | none ↦ none
    | some w ↦
        some (record w { sent = if w.running then w.sent + 1 else w.sent; connected = false })
  ];
}

-- `emit_metrics` of the thread.
unfoldable pub emit_metrics : ℕ → Worker → Worker
unfolding includes
emit_metrics min_level w =
    if includes min_level Level.debug then record w { emitted = w.emitted + 1 } else w

-- One turn of the thread's loop: `recv_timeout` takes a message, sees that the channel is empty and
-- has no sender, or waits for the interval in vain.
pub data Turn (min_level : ℕ) : Worker → Worker → Type 0 where
  message :
      (w : Worker) (n : ℕ)
      → w.running ≡ true
      → w.sent ≡ suc n
      → Turn min_level w (record (emit_metrics min_level w) { sent = n; running = false })
  disconnected :
      (w : Worker)
      → w.running ≡ true
      → w.sent ≡ 0
      → w.connected ≡ false
      → Turn min_level w (record (emit_metrics min_level w) { running = false })
  timeout :
      (w : Worker)
      → w.running ≡ true
      → w.sent ≡ 0
      → w.connected ≡ true
      → Turn min_level w (emit_metrics min_level w)

pub data Turns (min_level : ℕ) : Worker → Worker → Type 0 where
  stay : (w : Worker) → Turns min_level w w
  next : (w v u : Worker) → Turns min_level w v → Turn min_level v u → Turns min_level w u
