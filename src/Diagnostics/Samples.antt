-- ===== src/Diagnostics/Samples.antt =====
-- The metrics of sqelf/src/diagnostics.rs (`metrics!`, `take`, `emit_metrics`): atomic counters that the
-- parts of the process add to while the thread of the metrics swaps them out, one after the other.
pub mod Conserved
pub mod Reported
use Prim.Native.String.{String}
use text.Mathlib.Text.{◌==◌ as str_eq}
use seq_input_gelf.Common.{
  ℕ, ◌+◌, ◌%◌, ◌^◌, ◌≡◌, refl, Bool, true, false, List, [], ◌∷◌, ◌++◌, map, arith, if◌then◌else◌,
  Bool-cases, inl, inr,
}
use seq_input_gelf.Diagnostics.{Level, includes, increment, usize_mod}

-- The fields of a `Metrics`, each with its value.
abbrev pub Fields : Type 0
Fields = List (String × ℕ)

-- `Metrics::new`, for the names of a `metrics!`.
unfoldable pub new : List String → Fields
new [] = []
new (name ∷ names) = (name, 0) ∷ new names

abbrev pub load : String → Fields → ℕ
load name [] = 0
load name ((k, v) ∷ m) = if str_eq k name then v else load name m

-- The metric is a field.
abbrev pub has : String → Fields → Bool
has name [] = false
has name ((k, v) ∷ m) = if str_eq k name then true else has name m

unfoldable pub store : String → ℕ → Fields → Fields
store name n [] = []
store name n ((k, v) ∷ m) = if str_eq k name then (k, n) ∷ m else (k, v) ∷ store name n m

-- The atomic operations: `fetch_add` of `increment!`, and `swap(0)` of `take`.
pub data Atomic : Type 0 where
  add : String → Atomic
  swap : String → Atomic

-- `take` swaps the fields in their order.
unfoldable pub take : Fields → List Atomic
take [] = []
take ((k, v) ∷ m) = swap k ∷ take m

-- `emit_metrics`: the metrics of the three parts are taken in turn. The event that is made of them is
-- `metrics_event` of Diagnostics/Events.antt.
unfoldable pub emit_metrics : ℕ → Fields → Fields → Fields → List Atomic
unfolding take
emit_metrics min_level receive process server =
    if includes min_level Level.debug then take receive ++ (take process ++ take server) else []

-- What an operation leaves, and what it hands out.
unfoldable pub apply : ℕ → Atomic → Fields → Fields × List (String × ℕ)
unfolding store increment
apply min_level (add name) m = (store name (increment min_level (load name m)) m, [])
apply min_level (swap name) m = (store name 0 m, (name, load name m) ∷ [])

-- The operations of all threads, in the order in which they take effect.
unfoldable pub run : ℕ → List Atomic → Fields → Fields × List (String × ℕ)
run min_level [] m = (m, [])
run min_level (op ∷ ops) m =
    let (m', out) = apply min_level op m in
    let (m'', rest) = run min_level ops m' in (m'', out ++ rest)

-- What was handed out of a metric, in all.
unfoldable pub reported : String → List (String × ℕ) → ℕ
reported name [] = 0
reported name ((k, v) ∷ out) =
    let rest = reported name out in if str_eq k name then v + rest else rest

-- How often a metric was added to.
unfoldable pub additions : String → List Atomic → ℕ
additions name [] = 0
additions name (add k ∷ ops) =
    let rest = additions name ops in if str_eq k name then rest + 1 else rest
additions name (swap k ∷ ops) = additions name ops
