-- ===== src/Tests/Diagnostics.antt =====
-- The diagnostics of sqelf/src/diagnostics.rs: an error in the log, two threads that share metrics, and a
-- process that stops.
use seq_input_gelf.Common.{
  string_eq, ℕ, ◌+◌, ◌%◌, ◌≡◌, refl, true, false, List, [], ◌∷◌, none, some,
}
use seq_input_gelf.Common.HashMap
use seq_input_gelf.Diagnostics.{
  Level, includes, set_min_level, get_min_level, from_usize, to_usize, usize_mod,
}
use seq_input_gelf.Diagnostics.Events.{Failure, root, caused, emit_err}
use seq_input_gelf.Diagnostics.Events as Events
use seq_input_gelf.Diagnostics.Events.Chain.{chain, emit_err-chain}
use seq_input_gelf.Diagnostics.Samples as Samples
use seq_input_gelf.Diagnostics.Samples.{Fields, Atomic, add, swap, load, reported, additions, take}
use seq_input_gelf.Diagnostics.Samples.Reported.{swaps, distinct, run-reports}
use seq_input_gelf.Diagnostics.Lifecycle.{
  Process, Worker, stop, spawned, joining, Turn, timeout, stay, next, emit_metrics,
}
use seq_input_gelf.Diagnostics.Lifecycle.Stopped.{stop-ends}

abbrev refused : Failure
refused = caused "could not parse" (root "unexpected end")

emit_err-chain_example :
    emit_err (set_min_level Level.error) refused "GELF processing failed"
    ≡ some (Events.new "ERROR" (some (chain refused)) "GELF processing failed" none)
emit_err-chain_example = emit_err-chain Level.error refused "GELF processing failed"

abbrev metrics : Fields
metrics = ("receive_ok", 3) ∷ ("process_ok", 2) ∷ []

counting : includes 0 Level.debug ≡ true
unfolding includes get_min_level from_usize to_usize
counting = refl

-- A sample of both metrics, with additions in between and after it.
abbrev sample : List Atomic
sample =
    swap "receive_ok"
    ∷ add "receive_ok"
    ∷ add "process_ok"
    ∷ swap "process_ok"
    ∷ add "process_ok"
    ∷ []

run-reports_example :
    (n : ℕ) × (HashMap.get "process_ok" (Events.extend [] (Samples.run 0 sample metrics).1)
      ≡ some n)
    × (n % usize_mod
        ≡ (load "process_ok" metrics
            + additions "process_ok" (swap "receive_ok" ∷ add "receive_ok" ∷ add "process_ok" ∷ []))
          % usize_mod)
    × (load "process_ok" (Samples.run 0 sample metrics).0 % usize_mod
        ≡ additions "process_ok" (add "process_ok" ∷ []) % usize_mod)
unfolding swaps distinct take
run-reports_example =
    run-reports 0 counting (swap "receive_ok" ∷ add "receive_ok" ∷ add "process_ok" ∷ [])
      (add "process_ok" ∷ []) "process_ok" metrics refl refl

abbrev pub fresh : Process
fresh = record { min_level = 0; diagnostics = none }

-- The thread of the metrics after one interval.
abbrev sampled : Worker
sampled = record spawned { emitted = 1 }

one_turn : Turn 0 spawned sampled
unfolding emit_metrics includes get_min_level from_usize to_usize
one_turn = timeout spawned refl refl refl

stop-ends_example :
    (told : Worker) × ((stop
        (record { min_level = 0; diagnostics = some (record { metrics = some sampled }) })).1
      ≡ joining told)
    × ((v : Worker) × Turn 0 told v)
    × ((v : Worker) → Turn 0 told v → (v.running ≡ false) × (v.emitted ≡ 1 + 1))
stop-ends_example =
    stop-ends 0 counting
      (record { min_level = 0; diagnostics = some (record { metrics = some sampled }) }) sampled
      refl (next spawned spawned sampled (stay spawned) one_turn)
