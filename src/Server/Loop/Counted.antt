-- ===== src/Server/Loop/Counted.antt =====
-- What the loop of sqelf/src/server/mod.rs processes, and what it counts.
use seq_input_gelf.Common.{
  ℕ, ◌+◌, ◌%◌, ◌≡◌, refl, ap, Bool, List, [], ◌∷◌, arith, Bool-cases, inl, inr,
}
use seq_input_gelf.Diagnostics.{increment, includes, usize_mod}
use seq_input_gelf.Diagnostics.{Level}
use seq_input_gelf.Receive.Message.{Message}
use seq_input_gelf.Server.Received.{incomplete, complete, error}
use seq_input_gelf.Server.Metrics.{Metrics}
use seq_input_gelf.Server.Loop.{
  Event, received, failed, ended, close, ctrl_c, Server, running, stopped, panicked, turn, handle,
  run,
}

-- The messages that arrive before the first event that ends the loop.
unfoldable pub messages : List Event → List Message
messages [] = []
messages (received (complete msg) ∷ es) = msg ∷ messages es
messages (received incomplete ∷ es) = messages es
messages (received (error e) ∷ es) = messages es
messages (failed ∷ es) = []
messages (ended ∷ es) = []
messages (close ∷ es) = []
messages (ctrl_c ∷ es) = []

-- The count of what was received and of what came of it.
unfoldable pub IsBalanced : Metrics → Type 0
IsBalanced m = m.receive_ok ≡ (m.process_ok + m.process_err) % usize_mod

-- A server before its first event.
abbrev pub started : {P : Type 0} → Metrics → P → Server P
started m p = record { metrics = m; processor = p; status = running }

module _ {P : Type 0} (process : Message → P → P × Bool) where
  -- The processor, given messages one after the other.
  unfoldable pub process_all : List Message → P → P
  process_all [] p = p
  process_all (msg ∷ msgs) p = process_all msgs (process msg p).0

  pub left :
      (es : List Event) (m : Metrics) (p : P)
      → run process es (record { metrics = m; processor = p; status = stopped })
        ≡ record { metrics = m; processor = p; status = stopped }
  unfolding run
  left [] m p = refl
  left (e ∷ es) m p = refl

  pub left_panicked :
      (es : List Event) (m : Metrics) (p : P)
      → run process es (record { metrics = m; processor = p; status = panicked })
        ≡ record { metrics = m; processor = p; status = panicked }
  unfolding run
  left_panicked [] m p = refl
  left_panicked (e ∷ es) m p = refl

  -- A running server gives its processor exactly the complete messages that arrive before the first
  -- event that ends the loop, in order; an error of the receiver or of the processor skips none.
  pub run-processes :
      (es : List Event) (m : Metrics) (p : P)
      → (run process es (started m p)).processor ≡ process_all (messages es) p
  unfolding run messages process_all turn handle
  run-processes [] m p = refl
  run-processes (received (complete msg) ∷ es) m p = run-processes es _ (process msg p).0
  run-processes (received incomplete ∷ es) m p = run-processes es m p
  run-processes (received (error e) ∷ es) m p = run-processes es _ p
  run-processes (failed ∷ es) m p = ap (λ (t : Server P). t.processor) (left es _ p)
  run-processes (ended ∷ es) m p = ap (λ (t : Server P). t.processor) (left_panicked es m p)
  run-processes (close ∷ es) m p = ap (λ (t : Server P). t.processor) (left es m p)
  run-processes (ctrl_c ∷ es) m p = ap (λ (t : Server P). t.processor) (left es m p)

  counted :
      (min_level n a b : ℕ)
      → n ≡ (a + b) % usize_mod
      → (increment min_level n ≡ (increment min_level a + b) % usize_mod)
        × (increment min_level n ≡ (a + increment min_level b) % usize_mod)
  unfolding increment
  counted min_level n a b h = elim (Bool-cases (includes min_level Level.debug)) [
    | inl e ↦ rw (e, increment) (omega (arith, h), omega (arith, h))
    | inr e ↦ rw (e, increment) (h, h)
  ]

  handle-IsBalanced :
      (msg : Message) (m : Metrics) (p : P)
      → IsBalanced m
      → IsBalanced (handle process msg (started m p)).metrics
  unfolding handle IsBalanced
  handle-IsBalanced msg m p h =
      let (a, b) = counted m.min_level m.receive_ok m.process_ok m.process_err h in
      elim (Bool-cases (process msg p).1) [ inl e ↦ rw (e) a | inr e ↦ rw (e) b ]

  -- However the loop runs, the messages that were received are those that were processed and those
  -- that failed: the three counters agree, up to their wrap at 64 bits, if they do at the start and
  -- no sample of the metrics resets them meanwhile.
  pub run-IsBalanced :
      (es : List Event) (m : Metrics) (p : P)
      → IsBalanced m
      → IsBalanced (run process es (started m p)).metrics
  unfolding run turn handle IsBalanced
  run-IsBalanced [] m p h = h
  run-IsBalanced (received (complete msg) ∷ es) m p h =
      run-IsBalanced es _ (process msg p).0 (handle-IsBalanced msg m p h)
  run-IsBalanced (received incomplete ∷ es) m p h = run-IsBalanced es m p h
  run-IsBalanced (received (error e) ∷ es) m p h = run-IsBalanced es _ p h
  run-IsBalanced (failed ∷ es) m p h = rw (left es _ p) h
  run-IsBalanced (ended ∷ es) m p h = rw (left_panicked es m p) h
  run-IsBalanced (close ∷ es) m p h = rw (left es m p) h
  run-IsBalanced (ctrl_c ∷ es) m p h = rw (left es m p) h
