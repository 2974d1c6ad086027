-- ===== src/Diagnostics/Events.antt =====
-- What sqelf/src/diagnostics.rs writes to the log of the process. The time of an event is left out.
pub mod Chain
use Prim.Native.String.{String, ◌++◌}
use seq_input_gelf.Common.{string_eq, ℕ, List, [], ◌∷◌, Option, none, some, if◌then◌else◌}
use seq_input_gelf.Common.HashMap
use seq_input_gelf.Diagnostics.{Level, includes}

-- An error: what it displays, and its `source`, if it has one.
pub data Failure : Type 0 where
  root : String → Failure
  caused : String → Failure → Failure

-- `EmitMetrics`: the metrics of each part, by name.
pub record EmitMetrics : Type 0 where
  pub receive : List (String × ℕ)
  pub process : List (String × ℕ)
  pub server : List (String × ℕ)

-- `DiagnosticEvent`. Only a sample of the metrics has additional fields.
pub record DiagnosticEvent : Type 0 where
  pub level : String
  pub message_template : String
  pub error : Option String
  pub additional : Option EmitMetrics

-- `DiagnosticEvent::new`.
unfoldable pub new : String → Option String → String → Option EmitMetrics → DiagnosticEvent
new level error message_template additional = record {
  level = level;
  message_template = message_template;
  error = error;
  additional = additional;
}

-- `HashMap::extend`.
unfoldable pub extend : List (String × ℕ) → List (String × ℕ) → List (String × ℕ)
extend m [] = m
extend m ((name, n) ∷ rest) = extend (HashMap.insert name n m) rest

-- The event of `emit_metrics`, with what `take` gave for each part.
unfoldable pub metrics_event :
    ℕ → List (String × ℕ) → List (String × ℕ) → List (String × ℕ) → Option DiagnosticEvent
unfolding new includes extend
metrics_event min_level receive process server =
    let metrics : EmitMetrics = record {
      receive = extend [] receive;
      process = extend [] process;
      server = extend [] server;
    } in
    if includes min_level Level.debug
    then some (new "DEBUG" none "Collected GELF server metrics" (some metrics))
    else none

abbrev pub display : Failure → String
display (root s) = s
display (caused s f) = s

-- The displayed texts of the sources: `successors(error.source(), source)`.
unfoldable pub sources : Failure → List String
sources (root s) = []
sources (caused s f) = display f ∷ sources f

-- The loop of `format_error`, which appends to a text.
unfoldable pub write_all : String → List String → String
write_all s [] = s
write_all s (source ∷ rest) = write_all (s ++ (": " ++ source)) rest

unfoldable pub format_error : Failure → String
unfolding write_all sources
format_error error = write_all (display error) (sources error)

-- `emit`, `emit_debug_err` and `emit_err`: the event that is written, if one is.
unfoldable pub emit : ℕ → String → Option DiagnosticEvent
unfolding new includes
emit min_level template =
    if includes min_level Level.debug then some (new "DEBUG" none template none) else none

unfoldable pub emit_debug_err : ℕ → Failure → String → Option DiagnosticEvent
unfolding new includes format_error
emit_debug_err min_level error template =
    if includes min_level Level.debug
    then some (new "DEBUG" (some (format_error error)) template none)
    else none

unfoldable pub emit_err : ℕ → Failure → String → Option DiagnosticEvent
unfolding new includes format_error
emit_err min_level error template =
    if includes min_level Level.error
    then some (new "ERROR" (some (format_error error)) template none)
    else none
