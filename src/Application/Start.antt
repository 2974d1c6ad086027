-- ===== src/Application/Start.antt =====
-- `main`, `run` and `listen_for_stdin_closed` of sqelf/src/main.rs. The events that `select!` of the
-- server sees are a list; of the log, the two errors that `main` and the server itself emit are kept.
pub mod Exits
pub mod Stops
use Prim.Native.String.{String}
use seq_input_gelf.Common.{
  ℕ, zero, suc, Bool, true, false, List, [], ◌∷◌, ◌++◌, Option, none, some, if◌then◌else◌,
}
use seq_input_gelf.Config as Configuration
use seq_input_gelf.Config.{Var, from_env, is_seq_app}
use seq_input_gelf.Diagnostics.Events.{Failure, root, DiagnosticEvent, emit_err}
use seq_input_gelf.Diagnostics.Lifecycle as Diagnostics
use seq_input_gelf.Receive.Message.{Message}
use seq_input_gelf.Server.Build as Server
use seq_input_gelf.Server.Build.{Library, BuildError, build, take_handle}
use seq_input_gelf.Server.Loop.{Event, close}
use seq_input_gelf.Server.Loop

-- What `read` of the standard input gives for a buffer of one byte.
pub data Read : Type 0 where
  count : ℕ → Read
  read_failed : Read

-- `listen_for_stdin_closed`: the events that the thread causes.
unfoldable pub listen_for_stdin_closed : List Read → List Event
listen_for_stdin_closed [] = []
listen_for_stdin_closed (count zero ∷ reads) = close ∷ []
listen_for_stdin_closed (count (suc n) ∷ reads) = listen_for_stdin_closed reads
listen_for_stdin_closed (read_failed ∷ reads) = close ∷ []

-- The errors of `run`.
pub data Error : Type 0 where
  bad_environment : Error
  server : BuildError → Error
  -- "Failed to acquire handle to server"
  no_handle : Error
  stop_failed : Error

-- The payload of a panic.
pub data Panic : Type 0 where
  str : String → Panic
  string : String → Panic
  other : Panic

-- The payload of `unreachable!`.
abbrev unreachable : Panic
unreachable = str "internal error: entered unreachable code: receiver stream should never terminate"

unfoldable pub unwrap_panic : Panic → Failure
unwrap_panic (str s) = root s
unwrap_panic (string s) = root s
unwrap_panic other = root "unexpected panic (this is a bug)"

-- How far `run` comes: it waits for events, returns, or panics.
pub data Ending : Type 0 where
  waiting : Ending
  returned : Ending
  failed : Error → Ending
  panicked : Panic → Ending

-- How far the process comes.
pub data Exit : Type 0 where
  runs : Exit
  exits : (code : ℕ) → Exit

-- The statics of the diagnostics, and the errors in the log.
pub record World : Type 0 where
  pub diagnostics : Diagnostics.Process
  pub log : List DiagnosticEvent

abbrev log_event : Option DiagnosticEvent → World → World
log_event none w = w
log_event (some e) w = record w { log = w.log ++ e ∷ [] }

unfoldable pub log_err : Failure → String → World → World
unfolding emit_err
log_err e template w = log_event (emit_err w.diagnostics.min_level e template) w

module _ (L : Library) (display : Error → Failure) (env : String → Var) {P : Type 0}
    (process : Message → P → P × Bool) (events : List Event) (started : Loop.Server P) where
  -- `server.run()`: the future logs its error, and `run` returns `Ok(())` all the same.
  unfoldable pub serve : Server.Result (Server.Incoming L) → World → World × Ending
  unfolding log_err
  serve (Server.err e) w = (log_err (display (server e)) "GELF server failed" w, returned)
  serve (Server.ok i) w = elim (Loop.run process events started).status [
    | Loop.running ↦ (w, waiting)
    | Loop.stopped ↦ (w, returned)
    | Loop.panicked ↦ (w, panicked unreachable)
  ]

  -- `diagnostics::stop()?`, whose `join` returns once the thread has ended.
  unfoldable pub finish : World × Ending → World × Ending
  unfolding Diagnostics.stop
  finish (w, returned) =
      let (d, stopping) = Diagnostics.stop w.diagnostics in
      (
        record w { diagnostics = d },
        elim stopping [
          | Diagnostics.returned ↦ returned
          | Diagnostics.send_failed ↦ failed stop_failed
          | Diagnostics.joining _ ↦ returned
        ],
      )
  finish (w, waiting) = (w, waiting)
  finish (w, failed e) = (w, failed e)
  finish (w, panicked p) = (w, panicked p)

  -- The part of `run` that has a server.
  unfoldable pub run_server : Server.Server L → World → World × Ending
  unfolding take_handle serve finish
  run_server s w =
      let (found, rest) = take_handle L s in
      if is_seq_app env
      then (if found then finish (serve rest.fut w) else (w, failed no_handle))
      else finish (serve s.fut w)

  unfoldable pub run : World → World × Ending
  unfolding from_env Diagnostics.init build run_server
  run w = elim (from_env env) [
    | Configuration.invalid ↦ (w, failed bad_environment)
    | Configuration.ok config ↦ elim (Diagnostics.init config.diagnostics w.diagnostics) [
      | Diagnostics.panicked ↦ (w, panicked (str "GELF diagnostics have already been initialized"))
      | Diagnostics.ready d ↦ elim (build L config.server) [
        | Server.err e ↦ (record w { diagnostics = d }, failed (server e))
        | Server.ok s ↦ run_server s (record w { diagnostics = d })
      ]
    ]
  ]

  -- What `main` makes of it.
  unfoldable pub exit : World × Ending → World × Exit
  unfolding log_err unwrap_panic
  exit (w, waiting) = (w, runs)
  exit (w, returned) = (w, exits 0)
  exit (w, failed e) = (log_err (display e) "GELF input failed" w, exits 1)
  exit (w, panicked p) = (log_err (unwrap_panic p) "GELF input failed" w, exits 1)

  unfoldable pub main : World → World × Exit
  unfolding run exit
  main w = exit (run w)
