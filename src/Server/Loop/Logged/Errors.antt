-- ===== src/Server/Loop/Logged/Errors.antt =====
-- Each failure of the loop of sqelf/src/server/mod.rs is logged once, and counted once.
use Prim.Native.String.{String}
use text.Mathlib.Text.{◌==◌ as str_eq}
use seq_input_gelf.Common.{
  ℕ, ◌+◌, ◌%◌, ◌≡◌, refl, Bool, List, [], ◌∷◌, ◌++◌, if◌then◌else◌, arith, Bool-cases, inl, inr,
}
use seq_input_gelf.Diagnostics.{Level, includes, usize_mod}
use seq_input_gelf.Diagnostics.Events.{Failure, DiagnosticEvent, emit, emit_err, new}
use seq_input_gelf.Diagnostics.Events.Chain.{emit_err-any}
use seq_input_gelf.Receive.Outcome.{Error}
use seq_input_gelf.Receive.Message.{Message}
use seq_input_gelf.Server.Metrics.{Metrics}
use seq_input_gelf.Server.Received.{incomplete, complete, error}
use seq_input_gelf.Server.Loop.{
  Event, received, failed, ended, close, ctrl_c, Server, stopped, panicked, turn, handle, run,
  count_receive_err,
}
use seq_input_gelf.Server.Loop.Counted.{started}
use seq_input_gelf.Server.Loop.Logged.Failures.{failures, counted, run-counted}
use seq_input_gelf.Server.Loop.Logged.{written, turn_log, stop_log, run_log}

-- The errors of a log.
unfoldable pub errors : List DiagnosticEvent → ℕ
errors [] = 0
errors (event ∷ rest) = let n = errors rest in if str_eq event.level "ERROR" then n + 1 else n

errors-append : (xs ys : List DiagnosticEvent) → errors (xs ++ ys) ≡ errors xs + errors ys
unfolding errors
errors-append [] ys = omega arith
errors-append (x ∷ xs) ys = ground (arith, errors-append xs ys)

errors-emit_err :
    (min_level : ℕ) (failure : Failure) (template : String)
    → errors (written (emit_err min_level failure template)) ≡ 1
unfolding errors new
errors-emit_err min_level failure template = rw (emit_err-any min_level failure template) refl

errors-emit : (min_level : ℕ) (template : String) → errors (written (emit min_level template)) ≡ 0
unfolding errors emit new
errors-emit min_level template = elim (Bool-cases (includes min_level Level.debug)) [
  | inl e ↦ rw (e) refl
  | inr e ↦ rw (e) refl
]

module _ {P : Type 0} (process : Message → P → P × Bool) (refused : Error → Failure)
    (failure : Message → P → Failure) (broken : Failure) where
  abbrev log_of : List Event → Server P → List DiagnosticEvent
  log_of = run_log process refused failure broken

  -- A loop that was left logs no error.
  errors-left :
      (es : List Event) (m : Metrics) (p : P)
      → errors (log_of es (record { metrics = m; processor = p; status = stopped })) ≡ 0
  unfolding run_log stop_log
  errors-left [] m p = errors-emit m.min_level "Stopping GELF server"
  errors-left (e ∷ es) m p = errors-emit m.min_level "Stopping GELF server"

  errors-panicked :
      (es : List Event) (m : Metrics) (p : P)
      → errors (log_of es (record { metrics = m; processor = p; status = panicked })) ≡ 0
  unfolding run_log stop_log errors
  errors-panicked [] m p = refl
  errors-panicked (e ∷ es) m p = refl

  -- One turn and what follows it.
  errors-turn :
      (e : Event) (es : List Event) (m : Metrics) (p : P)
      → errors (log_of (e ∷ es) (started m p))
        ≡ errors (turn_log process refused failure broken e (started m p))
          + errors (log_of es (turn process e (started m p)))
  unfolding run_log
  errors-turn e es m p = errors-append _ _

  errors_start : (m : Metrics) (p : P) → errors (log_of [] (started m p)) ≡ 0
  unfolding run_log stop_log errors
  errors_start m p = refl

  errors_nil : errors [] ≡ 0
  unfolding errors
  errors_nil = refl

  errors-complete :
      (msg : Message) (m : Metrics) (p : P)
      → errors (turn_log process refused failure broken (received (complete msg)) (started m p))
        ≡ (if (process msg p).1 then 0 else 1)
  unfolding turn_log
  errors-complete msg m p = elim (Bool-cases (process msg p).1) [
    | inl e ↦ rw (e, turn_log) errors_nil
    | inr e ↦
        rw (e, turn_log) (errors-emit_err m.min_level (failure msg p) "GELF processing failed")
  ]

  errors-run_log :
      (es : List Event) (m : Metrics) (p : P)
      → errors (log_of es (started m p)) ≡ failures process es p
  unfolding failures turn turn_log handle
  errors-run_log [] m p = errors_start m p
  errors-run_log (received (complete msg) ∷ es) m p = ground (
    arith,
    errors-turn (received (complete msg)) es m p,
    errors-complete msg m p,
    errors-run_log es (handle process msg (started m p)).metrics (process msg p).0,
  )
  errors-run_log (received incomplete ∷ es) m p =
      omega (arith, errors-turn (received incomplete) es m p, errors_nil, errors-run_log es m p)
  errors-run_log (received (error e) ∷ es) m p = omega (
    arith,
    errors-turn (received (error e)) es m p,
    errors-emit_err m.min_level (refused e) "GELF processing failed",
    errors-run_log es (count_receive_err m) p,
  )
  errors-run_log (failed ∷ es) m p = omega (
    arith,
    errors-turn failed es m p,
    errors-emit_err m.min_level broken "GELF processing failed irrecoverably",
    errors-left es (count_receive_err m) p,
  )
  errors-run_log (ended ∷ es) m p =
      omega (arith, errors-turn ended es m p, errors_nil, errors-panicked es m p)
  errors-run_log (close ∷ es) m p = omega (
    arith,
    errors-turn close es m p,
    errors-emit m.min_level "Handle closed; shutting down",
    errors-left es m p,
  )
  errors-run_log (ctrl_c ∷ es) m p = omega (
    arith,
    errors-turn ctrl_c es m p,
    errors-emit m.min_level "Termination signal received; shutting down",
    errors-left es m p,
  )

module _ {P : Type 0} (process : Message → P → P × Bool) (refused : Error → Failure)
    (failure : Message → P → Failure) (broken : Failure) where
  -- At every minimum level, the loop logs one error for each failure: a message that the processor
  -- refuses, an error of the receiver, or the error of the stream that ends the loop; and none
  -- after that. Its two counters of errors grow by as many where metrics are counted, up to their
  -- wrap, and else by nothing.
  pub run-errors :
      (es : List Event) (m : Metrics) (p : P)
      → (errors (run_log process refused failure broken es (started m p)) ≡ failures process es p)
        × (counted (run process es (started m p)).metrics % usize_mod
            ≡ (counted m + (if includes m.min_level Level.debug then failures process es p else 0))
              % usize_mod)
  run-errors es m p =
      (errors-run_log process refused failure broken es m p, run-counted process es m p)
