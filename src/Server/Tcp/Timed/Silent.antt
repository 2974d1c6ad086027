-- ===== src/Server/Tcp/Timed/Silent.antt =====
-- A connection of sqelf/src/server/tcp.rs that completes no frame in time is closed.
use mathlib.Core.List.{append_assoc, append-nil}
use seq_input_gelf.Common.{
  ℕ, ◌+◌, ◌≤◌, ◌<◌, ◌≡◌, refl, sym, ap, ◌∙◌, Bool, false, List, [], ◌∷◌, ◌++◌, Option, inl, inr,
}
use seq_input_gelf.Common.Entries.{All}
use seq_input_gelf.Receive.Outcome.{Bytes, Result}
use seq_input_gelf.Receive.Message.{Message}
use seq_input_gelf.Receive.Reader.Stream.{concat}
use seq_input_gelf.Server.Metrics.{Metrics}
use seq_input_gelf.Server.Tcp.Decode.{Connection, new as new_decoder}
use seq_input_gelf.Server.Tcp.Decode.Segments.{frames}
use seq_input_gelf.Server.Tcp.Decode.Framing.{restart-Inv}
use seq_input_gelf.Server.Tcp.Decode.Stream.{IsValid, owed, opened}
use seq_input_gelf.Server.Tcp.Connections.{
  TimeoutStream, pending, count_accept, count_timeout, count_close, new,
}
use seq_input_gelf.Server.Tcp.Timed.{IsTimeout, connected, Socket, arrive, closed, serve, session}
use seq_input_gelf.Server.Tcp.Timed.Polls.{concat-append}
use seq_input_gelf.Server.Tcp.Timed.Framed.{Waits, poll_stream-Streams}
use seq_input_gelf.Server.Tcp.Timed.Turns.{polled, kept, serve-turn}

-- A socket that stays connected.
abbrev pub still : List Bytes → Socket
still reads = record { reads = reads; ending = connected }

unfoldable pub opens : List (ℕ × List Bytes) → List (ℕ × Socket)
opens [] = []
opens ((now, arrived) ∷ polls) = (now, still arrived) ∷ opens polls

-- All the bytes that arrive.
unfoldable pub sent : List (ℕ × List Bytes) → Bytes
unfolding concat
sent [] = []
sent ((now, arrived) ∷ polls) = concat arrived ++ sent polls

module _ {S : Type 0} (receive : Bytes → S → S × Result (Option Message))
    (elapses : ℕ → ℕ → Bool → Bool) where
  -- The reads of a socket, with what has arrived.
  pub owed_arrived :
      (c : Connection S) (reads arrived : List Bytes) (later : Bytes)
      → owed receive c (concat reads ++ (concat arrived ++ later))
        ≡ owed receive c (concat (reads ++ arrived) ++ later)
  owed_arrived c reads arrived later = ap (owed receive c) (
      sym (append_assoc (concat reads) (concat arrived) later)
      ∙ ap (λ (b : Bytes). b ++ later) (sym (concat-append reads arrived)))

  -- A poll that owes no frame waits.
  silent-Waits :
      (reads arrived : List Bytes) (t : TimeoutStream (Connection S)) (later : Bytes)
      → IsValid receive t.stream
      → owed receive t.stream (concat reads ++ (concat arrived ++ later)) ≡ []
      → IsValid receive (kept receive elapses (still reads) (still arrived) t).stream
        × Waits receive
            (reads ++ arrived)
            t.stream
            (polled receive elapses (still reads) (still arrived) t)
  unfolding arrive
  silent-Waits reads arrived t later v h =
      let (u, taken) = poll_stream-Streams receive (still (reads ++ arrived)) t.stream v in
      elim taken [
        | inl gives ↦ absurd (cc (h, owed_arrived t.stream reads arrived later, gives.same later))
        | inr waits ↦ (u, waits)
      ]

  module _ (law : IsTimeout elapses) (now : ℕ) (arrived : List Bytes)
      (later : List (ℕ × Socket)) where
    -- A stream that is polled before its time, and then at it, while no frame is owed.
    serve-silent :
        (polls : List (ℕ × List Bytes)) (reads : List Bytes) (t : TimeoutStream (Connection S))
        (m : Metrics) (rest : Bytes)
        → IsValid receive t.stream
        → All (λ p. p.0 < t.deadline) polls
        → t.deadline ≤ now
        → owed receive t.stream (concat reads ++ (sent polls ++ (concat arrived ++ rest))) ≡ []
        → serve receive elapses (opens polls ++ (now, still arrived) ∷ later) (still reads) t m
          ≡ ([], closed now (count_close (count_timeout m)))
    unfolding sent arrive opens
    serve-silent [] reads t m rest v before at_last h =
        let (u, waits) = silent-Waits reads arrived t rest v h in
        serve-turn receive elapses now (still arrived) later (still reads) t m pending waits.outcome
        ∙ rw (law.late now t.deadline at_last) refl
    serve-silent ((first, bytes) ∷ polls) reads t m rest v before at_last h =
        let following = sent polls ++ (concat arrived ++ rest) in
        let same =
          ap (λ (b : Bytes). owed receive t.stream (concat reads ++ b))
            (append_assoc (concat bytes) (sent polls) (concat arrived ++ rest)) in
        let (u, waits) = silent-Waits reads bytes t following v (sym same ∙ h) in
        serve-turn receive elapses first (still bytes) (opens polls ++ (now, still arrived) ∷ later)
          (still reads) t m pending waits.outcome
        ∙ rw (law.early first t.deadline false before.0) (
            serve-silent polls (polled receive elapses (still reads) (still bytes) t).1.0
              (kept receive elapses (still reads) (still bytes) t) m rest u before.1 at_last
              (rw (waits.emptied) (
                sym (waits.same following)
                ∙ sym (owed_arrived t.stream reads bytes following)
                ∙ (sym same ∙ h))))

    -- A new connection whose socket stays open, and whose bytes, cut into reads and polled in any way,
    -- complete no frame that fits is closed at its first poll from `start + keep_alive` on, however
    -- many bytes it sends: its session has no item, and one more timeout and one more close are
    -- counted.
    pub silent-closes :
        (max keep_alive start : ℕ) (m : Metrics) (s : S) (polls : List (ℕ × List Bytes))
        → All (λ p. p.0 < start + keep_alive) polls
        → start + keep_alive ≤ now
        → frames max false (sent polls ++ concat arrived) ≡ []
        → session receive elapses max keep_alive start m s
            (opens polls ++ (now, still arrived) ∷ later)
          ≡ ([], closed now (count_close (count_timeout (count_accept m))))
    unfolding session new opened concat new_decoder
    silent-closes max keep_alive start m s polls before at_last h =
        let c = opened receive max m s in
        serve-silent polls [] (new start keep_alive c m).0 (count_accept m) []
          (restart-Inv c.decoder []) before at_last
          (ap (λ (b : Bytes). frames max false (sent polls ++ b)) (append-nil (concat arrived)) ∙ h)
