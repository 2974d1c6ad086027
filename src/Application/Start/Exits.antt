-- ===== src/Application/Start/Exits.antt =====
-- When the process of sqelf/src/main.rs ends, and with which code.
use Prim.Native.String.{String}
use mathlib.Core.Path.{subst}
use mathlib.Core.List.{append-nil}
use seq_input_gelf.Common.{
  sym, ℕ, ◌≡◌, refl, Bool, true, false, List, [], ◌∷◌, ◌++◌, none, some, if◌then◌else◌, Bool-cases,
  inl, inr, ◌⊎◌, Option-cases, ap, ◌∙◌,
}
use seq_input_gelf.Config as Configuration
use seq_input_gelf.Config.{Var, from_env, is_seq_app}
use seq_input_gelf.Diagnostics.{Level, includes, set_min_level}
use seq_input_gelf.Diagnostics.Lifecycle as Diagnostics
use seq_input_gelf.Diagnostics.Events.Chain.{chain, emit_err-any}
use seq_input_gelf.Diagnostics.Events.{new, Failure, DiagnosticEvent}
use seq_input_gelf.Receive.Message.{Message}
use seq_input_gelf.Server.Build as Server
use seq_input_gelf.Server.Build.{bad_address, Library, build, take_handle}
use seq_input_gelf.Server.Loop.{Event, received, close}
use seq_input_gelf.Server.Loop
use seq_input_gelf.Application.Start.{
  bad_environment, Error, World, Ending, waiting, failed, panicked, exits, returned, log_err,
  server, main, run, run_server, serve, finish, exit,
}

from_env-cases :
    {A : Type 0} (r : Configuration.Result A)
    → (r ≡ Configuration.invalid) ⊎ ((a : A) × (r ≡ Configuration.ok a))
from_env-cases Configuration.invalid = inl refl
from_env-cases (Configuration.ok a) = inr (a, refl)

-- The process once `init` is done, with a thread of the metrics or without.
abbrev begun : ℕ → Bool → List DiagnosticEvent → World
begun min_level b log = record {
  diagnostics = record {
    min_level = min_level;
    diagnostics = some (record { metrics = if b then some Diagnostics.spawned else none });
  };
  log = log;
}

module _ (L : Library) (env : String → Var) where
  -- The configuration can be read, and its address has the form of one.
  unfoldable pub accepts : Bool
  accepts = elim (from_env env) [
    | Configuration.invalid ↦ false
    | Configuration.ok config ↦ elim (L.parse config.server.bind.addr) [
      | none ↦ false
      | some _ ↦ true
    ]
  ]

-- An error as it is logged.
abbrev pub logged : Failure → String → DiagnosticEvent
logged failure template = new "ERROR" (some (chain failure)) template none

module _ (L : Library) (display : Error → Failure) (env : String → Var) where
  -- The errors that keep the server from listening, each as it is logged once.
  unfoldable pub refusals : List DiagnosticEvent
  refusals = elim (from_env env) [
    | Configuration.invalid ↦ logged (display bad_environment) "GELF input failed" ∷ []
    | Configuration.ok config ↦ elim (L.parse config.server.bind.addr) [
      | none ↦ logged (display (server bad_address)) "GELF input failed" ∷ []
      | some addr ↦ elim (Server.incoming L config.server addr) [
        | Server.err e ↦ logged (display (server e)) "GELF server failed" ∷ []
        | Server.ok _ ↦ []
      ]
    ]
  ]

module _ (L : Library) (display : Error → Failure) (env : String → Var) {P : Type 0}
    (process : Message → P → P × Bool) (events : List Event) (started : Loop.Server P) where
  -- A run that has returned, with its log.
  IsDone : World × Ending → List DiagnosticEvent → Type 0
  IsDone x log = (x.1 ≡ returned) × (x.0.log ≡ log)

  log_err-logged :
      (failure : Failure) (template : String) (w : World)
      → log_err failure template w ≡ record w { log = w.log ++ logged failure template ∷ [] }
  unfolding log_err
  log_err-logged failure template w =
      rw (emit_err-any w.diagnostics.min_level failure template, log_err) refl

  -- `stop` fails for no diagnostics that `init` has made.
  stop-IsDone :
      (min_level : ℕ) (b : Bool) (log : List DiagnosticEvent)
      → IsDone (finish L display env process events started (begun min_level b log, returned)) log
  unfolding finish Diagnostics.stop Diagnostics.stop_metrics Diagnostics.send IsDone
  stop-IsDone min_level true log = (refl, refl)
  stop-IsDone min_level false log = (refl, refl)

  abbrev served : Server.Result (Server.Incoming L) → List DiagnosticEvent → List DiagnosticEvent
  served (Server.ok i) log = log
  served (Server.err e) log = log ++ logged (display (server e)) "GELF server failed" ∷ []

  serve-IsDone :
      (fut : Server.Result (Server.Incoming L)) (min_level : ℕ) (b : Bool)
      (log : List DiagnosticEvent)
      → (Loop.run process events started).status ≡ Loop.stopped
      → IsDone
          (finish L display env process events started
            (serve L display env process events started fut (begun min_level b log)))
          (served fut log)
  unfolding serve
  serve-IsDone (Server.ok i) min_level b log stops = rw (stops, serve) (stop-IsDone min_level b log)
  serve-IsDone (Server.err e) min_level b log stops =
      rw (log_err-logged (display (server e)) "GELF server failed" (begun min_level b log), serve)
        (stop-IsDone min_level b (log ++ logged (display (server e)) "GELF server failed" ∷ []))

  run_server-IsDone :
      (fut : Server.Result (Server.Incoming L)) (min_level : ℕ) (b : Bool)
      (log : List DiagnosticEvent)
      → (Loop.run process events started).status ≡ Loop.stopped
      → IsDone
          (run_server L display env process events started
            (record { fut = fut; handle = true })
            (begun min_level b log))
          (served fut log)
  unfolding run_server take_handle
  run_server-IsDone fut min_level b log stops = elim (Bool-cases (is_seq_app env)) [
    | inl h ↦ rw (h, run_server, take_handle) (serve-IsDone fut min_level b log stops)
    | inr h ↦ rw (h, run_server, take_handle) (serve-IsDone fut min_level b log stops)
  ]

  -- What `main` makes of a run: the code, and the log.
  abbrev Gives : World × Ending → ℕ → List DiagnosticEvent → Type 0
  Gives x code log =
      ((exit L display env process events started x).1 ≡ exits code)
      × ((exit L display env process events started x).0.log ≡ log)

  abbrev input_failed : Error → World → List DiagnosticEvent
  input_failed e w = w.log ++ logged (display e) "GELF input failed" ∷ []

  exit-failed : (e : Error) (w : World) → Gives (w, failed e) 1 (input_failed e w)
  unfolding exit
  exit-failed e w =
      (refl, ap (λ (v : World). v.log) (log_err-logged (display e) "GELF input failed" w))

  exit-done : (x : World × Ending) (log : List DiagnosticEvent) → IsDone x log → Gives x 0 log
  unfolding exit IsDone
  exit-done (w, returned) log (h, same) = (refl, same)
  exit-done (w, waiting) log (h, same) = absurd (cc (h))
  exit-done (w, failed e) log (h, same) = absurd (cc (h))
  exit-done (w, panicked p) log (h, same) = absurd (cc (h))

  served-refusal :
      (r : Server.Result (Server.Incoming L)) (log : List DiagnosticEvent)
      → served r log
        ≡ log ++ elim r [
          | Server.err e ↦ logged (display (server e)) "GELF server failed" ∷ []
          | Server.ok _ ↦ []
        ]
  served-refusal (Server.ok i) log = sym (append-nil log)
  served-refusal (Server.err e) log = refl

  served-refusals :
      (config : Configuration.Config) (addr : L.Addr) (log : List DiagnosticEvent)
      → from_env env ≡ Configuration.ok config
      → L.parse config.server.bind.addr ≡ some addr
      → served (Server.incoming L config.server addr) log ≡ log ++ refusals L display env
  unfolding refusals
  served-refusals config addr log h h2 =
      rw (h, h2, refusals) (served-refusal (Server.incoming L config.server addr) log)

  -- How far `run` comes.
  run-invalid :
      (w : World)
      → from_env env ≡ Configuration.invalid
      → run L display env process events started w ≡ (w, failed bad_environment)
  unfolding run
  run-invalid w h = rw (h, run) refl

  abbrev begins : Configuration.Config → World → World
  begins config w =
      let min_level = set_min_level config.diagnostics.min_level in
      begun min_level (includes min_level Level.debug) w.log

  module _ (w : World) (config : Configuration.Config) (fresh : w.diagnostics.diagnostics ≡ none)
      (h : from_env env ≡ Configuration.ok config) where
    run-bad_address :
        L.parse config.server.bind.addr ≡ none
        → run L display env process events started w
          ≡ (begins config w, failed (server bad_address))
    unfolding run
    run-bad_address none_h = rw (h, fresh, none_h, run, Diagnostics.init, build) refl

    run-listens :
        (addr : L.Addr)
        → L.parse config.server.bind.addr ≡ some addr
        → run L display env process events started w
          ≡ run_server L display env process events started
              (record { fut = Server.incoming L config.server addr; handle = true })
              (begins config w)
    unfolding run
    run-listens addr h2 = rw (h, fresh, h2, run, Diagnostics.init, build) refl

  -- If nothing has initialized the diagnostics of the process, and its server's loop would stop, the
  -- process exits: with 0 if its configuration can be read and its address parsed, be the server able
  -- to listen there or not, and with 1 otherwise. Each error that keeps it from listening, and no
  -- other, is added to the log of such errors, once.
  pub main-exits :
      (w : World)
      → w.diagnostics.diagnostics ≡ none
      → (Loop.run process events started).status ≡ Loop.stopped
      → ((main L display env process events started w).1 ≡ exits (if accepts L env then 0 else 1))
        × ((main L display env process events started w).0.log ≡ w.log ++ refusals L display env)
  unfolding main accepts refusals
  main-exits w fresh stops = elim (from_env-cases (from_env env)) [
    | inl h ↦
        let (ended, log) =
          subst (λ (x : World × Ending). Gives x 1 (input_failed bad_environment w))
            (sym (run-invalid w h)) (exit-failed bad_environment w) in
        (ended ∙ rw (h, accepts) refl, log ∙ rw (h, refusals) refl)
    | inr (config, h) ↦
        let min_level = set_min_level config.diagnostics.min_level in
        elim (Option-cases (L.parse config.server.bind.addr)) [
          | inl none_h ↦
              let (ended, log) =
                subst
                  (λ (x : World × Ending).
                    Gives x 1 (input_failed (server bad_address) (begins config w)))
                  (sym (run-bad_address w config fresh h none_h))
                  (exit-failed (server bad_address) (begins config w)) in
              (ended ∙ rw (h, none_h, accepts) refl, log ∙ rw (h, none_h, refusals) refl)
          | inr (addr, h2) ↦
              let fut = Server.incoming L config.server addr in
              let (ended, log) =
                subst (λ (x : World × Ending). Gives x 0 (served fut w.log))
                  (sym (run-listens w config fresh h addr h2))
                  (exit-done _ (served fut w.log) (
                    run_server-IsDone fut min_level (includes min_level Level.debug) w.log
                      stops)) in
              (ended ∙ rw (h, h2, accepts) refl, log ∙ served-refusals config addr w.log h h2)
        ]
  ]
