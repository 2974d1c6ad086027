-- ===== src/Diagnostics/Lifecycle/Stopped.antt =====
-- What `init` and `stop` of sqelf/src/diagnostics.rs do to each other, and to the thread of the metrics.
use seq_input_gelf.Common.{ℕ, suc, ◌+◌, ◌≡◌, refl, true, false, none, some, arith}
use seq_input_gelf.Diagnostics.{Level, includes}
use seq_input_gelf.Config as Configuration
use seq_input_gelf.Diagnostics.Lifecycle.{
  drop, Worker, Process, spawned, ready, panicked, init, send, joining, stop, stop_metrics,
  emit_metrics, Turn, message, disconnected, timeout, Turns, stay, next,
}

-- If the process has no diagnostics, `init` succeeds; a second `init` panics, whatever its
-- configuration; and one after a `stop` succeeds again.
pub init-once :
    (config again : Configuration.Diagnostics) (s : Process)
    → s.diagnostics ≡ none
    → (s' : Process) × (init config s ≡ ready s')
      × (init again s' ≡ panicked)
      × ((s'' : Process) × (init again (stop s').0 ≡ ready s''))
unfolding init stop
init-once config again s h = rw (h) (_, refl, refl, (_, refl))

-- What holds of a thread that was spawned and not told anything.
record IsWaiting (w : Worker) : Type 0 where
  sent : w.sent ≡ 0
  connected : w.connected ≡ true
  running : w.running ≡ true

module _ (min_level : ℕ) (debugging : includes min_level Level.debug ≡ true) where
  emit_metrics-once : (w : Worker) → emit_metrics min_level w ≡ record w { emitted = w.emitted + 1 }
  unfolding emit_metrics
  emit_metrics-once w = rw (debugging) refl

  Turn-IsWaiting : (w v : Worker) → Turn min_level w v → IsWaiting w → IsWaiting v
  Turn-IsWaiting w v (message _ n r s) h = absurd (omega (arith, s, h.sent))
  Turn-IsWaiting w v (disconnected _ r s c) h = absurd (cc (c, h.connected))
  Turn-IsWaiting w v (timeout _ r s c) h =
      rw (emit_metrics-once w) (record { sent = s; connected = c; running = r })

  Turns-IsWaiting : (w v : Worker) → Turns min_level w v → IsWaiting w → IsWaiting v
  Turns-IsWaiting w v (stay _) h = h
  Turns-IsWaiting w v (next _ u _ ts t) h = Turn-IsWaiting u v t (Turns-IsWaiting w u ts h)

  -- A thread with a message waiting ends in its next turn.
  told-ends :
      (w : Worker)
      → w.sent ≡ suc 0
      → (v : Worker) → Turn min_level w v
      → (v.running ≡ false) × (v.emitted ≡ w.emitted + 1)
  told-ends w one v (message _ n r s) = rw (emit_metrics-once w) (refl, refl)
  told-ends w one v (disconnected _ r s c) = absurd (omega (arith, one, s))
  told-ends w one v (timeout _ r s c) = absurd (omega (arith, one, s))

  -- Where metrics are counted: however often the thread has emitted them, `stop` sends it a message
  -- and waits for it; the thread can take its next turn, and whatever turn that is, it emits the
  -- metrics exactly once more and ends.
  pub stop-ends :
      (s : Process) (w : Worker)
      → s.diagnostics ≡ some (record { metrics = some w })
      → Turns min_level spawned w
      → (told : Worker) × ((stop s).1 ≡ joining told)
        × ((v : Worker) × Turn min_level told v)
        × ((v : Worker) → Turn min_level told v → (v.running ≡ false) × (v.emitted ≡ w.emitted + 1))
  unfolding stop stop_metrics send
  stop-ends s w h ts =
      let waiting =
        Turns-IsWaiting spawned w ts (record { sent = refl; connected = refl; running = refl }) in
      let told = record w { sent = w.sent + 1 } in
      let one : told.sent ≡ suc 0 = omega (arith, waiting.sent) in
      (
        told,
        rw (h, waiting.running) refl,
        (_, message told 0 waiting.running one),
        told-ends told one,
      )

  -- Diagnostics that are dropped while their thread waits tell it to end, too: whatever turn it takes
  -- next, it emits the metrics once more and ends.
  pub drop-ends :
      (w : Worker)
      → Turns min_level spawned w
      → (told : Worker) × (drop (record { metrics = some w }) ≡ record { metrics = some told })
        × ((v : Worker) → Turn min_level told v → (v.running ≡ false) × (v.emitted ≡ w.emitted + 1))
  unfolding drop
  drop-ends w ts =
      let waiting =
        Turns-IsWaiting spawned w ts (record { sent = refl; connected = refl; running = refl }) in
      let told = record w { sent = w.sent + 1; connected = false } in
      (told, rw (waiting.running) refl, told-ends told (omega (arith, waiting.sent)))
