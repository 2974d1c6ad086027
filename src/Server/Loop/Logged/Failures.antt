-- ===== src/Server/Loop/Logged/Failures.antt =====
-- The failures of a run of the loop of sqelf/src/server/mod.rs, and its counters of errors.
use seq_input_gelf.Common.{
  ℕ, ◌+◌, ◌%◌, ◌≡◌, refl, Bool, true, false, List, [], ◌∷◌, if◌then◌else◌, arith, Bool-cases, inl,
  inr,
}
use seq_input_gelf.Diagnostics.{Level, includes, increment, usize_mod}
use seq_input_gelf.Receive.Message.{Message}
use seq_input_gelf.Server.Metrics.{Metrics}
use seq_input_gelf.Server.Received.{incomplete, complete, error}
use seq_input_gelf.Server.Loop.{
  Event, received, failed, ended, close, ctrl_c, turn, handle, run, count_receive_ok,
  count_receive_err, count_process_ok, count_process_err,
}
use seq_input_gelf.Server.Loop.Counted.{started, left, left_panicked}

module _ {P : Type 0} (process : Message → P → P × Bool) where
  -- The failures before the loop ends: messages that the processor refuses, errors of the receiver,
  -- and the error that ends the loop.
  unfoldable pub failures : List Event → P → ℕ
  failures [] p = 0
  failures (received (complete msg) ∷ es) p =
      let (p', done) = process msg p in let n = failures es p' in if done then n else n + 1
  failures (received incomplete ∷ es) p = failures es p
  failures (received (error e) ∷ es) p = failures es p + 1
  failures (failed ∷ es) p = 1
  failures (ended ∷ es) p = 0
  failures (close ∷ es) p = 0
  failures (ctrl_c ∷ es) p = 0

-- What the counters of errors have counted.
abbrev pub counted : Metrics → ℕ
counted m = m.receive_err + m.process_err

-- A counter that is counted up, added to another one.
increment-add :
    (min_level n k : ℕ)
    → (increment min_level n + k) % usize_mod
      ≡ (n + k + (if includes min_level Level.debug then 1 else 0)) % usize_mod
unfolding increment
increment-add min_level n k = elim (Bool-cases (includes min_level Level.debug)) [
  | inl e ↦ rw (e, increment) (omega arith)
  | inr e ↦ rw (e, increment) (omega arith)
]

module _ {P : Type 0} (process : Message → P → P × Bool) where
  handle-done :
      (msg : Message) (m : Metrics) (p : P)
      → (process msg p).1 ≡ true
      → handle process msg (started m p)
        ≡ started (count_process_ok (count_receive_ok m)) (process msg p).0
  unfolding handle
  handle-done msg m p e = rw (e, handle) refl

  handle-refused :
      (msg : Message) (m : Metrics) (p : P)
      → (process msg p).1 ≡ false
      → handle process msg (started m p)
        ≡ started (count_process_err (count_receive_ok m)) (process msg p).0
  unfolding handle
  handle-refused msg m p e = rw (e, handle) refl

  pub run-counted :
      (es : List Event) (m : Metrics) (p : P)
      → counted (run process es (started m p)).metrics % usize_mod
        ≡ (counted m + (if includes m.min_level Level.debug then failures process es p else 0))
          % usize_mod
  unfolding run turn handle failures
  run-counted [] m p = ground arith
  run-counted (received (complete msg) ∷ es) m p = elim (Bool-cases (process msg p).1) [
    | inl e ↦
        rw (handle-done msg m p e, e)
          (run-counted es (count_process_ok (count_receive_ok m)) (process msg p).0)
    | inr e ↦
        let q = run-counted es (count_process_err (count_receive_ok m)) (process msg p).0 in
        rw (handle-refused msg m p e, e)
          (ground (arith, q, increment-add m.min_level m.process_err m.receive_err))
  ]
  run-counted (received incomplete ∷ es) m p = run-counted es m p
  run-counted (received (error e) ∷ es) m p = ground (
    arith,
    run-counted es (count_receive_err m) p,
    increment-add m.min_level m.receive_err m.process_err,
  )
  run-counted (failed ∷ es) m p =
      rw (left process es (count_receive_err m) p)
        (ground (arith, increment-add m.min_level m.receive_err m.process_err))
  run-counted (ended ∷ es) m p = rw (left_panicked process es m p) (ground arith)
  run-counted (close ∷ es) m p = rw (left process es m p) (ground arith)
  run-counted (ctrl_c ∷ es) m p = rw (left process es m p) (ground arith)
