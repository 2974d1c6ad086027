-- ===== src/Server/Tcp/Timed/Ended.antt =====
-- How a session of a connection of sqelf/src/server/tcp.rs may end, and what its items are.
use mathlib.Core.Path.{subst}
use seq_input_gelf.Common.{ℕ, ◌+◌, ◌≤◌, ◌≡◌, refl, ap, List, [], ◌∷◌, ◌++◌, Option, some, map, ◌⊎◌}
use seq_input_gelf.Receive.Outcome.{Bytes, Result}
use seq_input_gelf.Receive.Message.{Message}
use seq_input_gelf.Receive.Reader.Stream.{concat}
use seq_input_gelf.Server.Metrics.{Metrics}
use seq_input_gelf.Server.Received.{Received, into_received}
use seq_input_gelf.Server.Tcp.Decode.Stream.{feed}
use seq_input_gelf.Server.Tcp.Connections.{count_timeout, count_close, count_receive_err}
use seq_input_gelf.Server.Tcp.Timed.{
  Ending, connected, eof, broken, Socket, Status, running, closed, errored, panicked,
}
use seq_input_gelf.Server.Tcp.Timed.Framed.{IsNothing, after_end}
use seq_input_gelf.Server.Tcp.Timed.Turns.{after_item}

-- The time of the last item, or of the start.
unfoldable pub last_time : ℕ → List (ℕ × Received) → ℕ
last_time start [] = start
last_time start ((now, x) ∷ items) = last_time now items

-- How the socket ends at its polls: the first way counts.
unfoldable pub ends : Ending → List (ℕ × Socket) → Ending
ends connected [] = connected
ends connected ((now, arrived) ∷ polls) = ends arrived.ending polls
ends eof polls = eof
ends (broken e) polls = broken e

-- The bytes that arrive until then, with a null byte behind them if the peer closes the socket.
unfoldable pub until_end : List (ℕ × Socket) → Bytes
unfolding concat
until_end [] = []
until_end ((now, arrived) ∷ polls) =
    concat arrived.reads ++ after_end arrived.ending (until_end polls)

module _ {S : Type 0} where
  -- A stream that is open elapses at its time after the last item. One that is closed was closed at that
  -- time or later, which counts a timeout, or its peer has closed the socket and no frame is left; one that failed, by the
  -- error of its socket.
  abbrev pub IsEnding :
      (keep_alive : ℕ) → Metrics → Ending → (rest : List Bytes) → (last : ℕ) → Status S → Type 0
  IsEnding keep_alive m ending rest last (running t) = t.deadline ≡ last + keep_alive
  IsEnding keep_alive m ending rest last (closed now m') =
      ((last + keep_alive ≤ now) × (m' ≡ count_close (count_timeout m)))
      ⊎ ((ending ≡ eof) × (m' ≡ count_close m) × IsNothing rest)
  IsEnding keep_alive m ending rest last (errored now e m') =
      (ending ≡ broken e) × (m' ≡ count_close (count_receive_err m))
  IsEnding keep_alive m ending rest last panicked = ⊥

module _ {S : Type 0} (receive : Bytes → S → S × Result (Option Message)) where
  -- The items are what the receiver makes of its first frames.
  pub record IsSession (keep_alive start : ℕ) (m : Metrics) (ending : Ending) (owes : List Bytes)
      (s : S) (r : List (ℕ × Received) × Status S) : Type 0 where
    pub given : List Bytes
    pub rest : List Bytes
    pub first : owes ≡ given ++ rest
    pub items : (feed receive given s).1 ≡ map (λ i. some i.1) r.0
    pub ended : IsEnding keep_alive m ending rest (last_time start r.0) r.1

  module _ (keep_alive : ℕ) (m : Metrics) where
    -- A session that ends without an item more.
    pub over-IsSession :
        (start : ℕ) (ending : Ending) (owes : List Bytes) (s : S) (status : Status S)
        → IsEnding keep_alive m ending owes start status
        → IsSession keep_alive start m ending owes s ([], status)
    unfolding last_time feed
    over-IsSession start ending owes s status h = record {
      given = [];
      rest = owes;
      first = refl;
      items = refl;
      ended = h;
    }

    pub item-IsSession :
        (start now : ℕ) (f : Bytes) (x : Received) (ending : Ending) (owes : List Bytes) (s : S)
        (r : List (ℕ × Received) × Status S)
        → into_received (receive f s).1 ≡ some x
        → IsSession keep_alive now m ending owes (receive f s).0 r
        → IsSession keep_alive start m ending (f ∷ owes) s (after_item (now, x) r)
    unfolding last_time feed
    item-IsSession start now f x ending owes s r made h = record {
      given = f ∷ h.given;
      rest = h.rest;
      first = ap (◌∷◌ f) h.first;
      items = rw (made) (ap (◌∷◌ (some x)) h.items);
      ended = h.ended;
    }

    -- The frames and the receiver of a session may be replaced by equal ones.
    pub IsSession-of :
        (start : ℕ) (ending : Ending) (owes : List Bytes) (s : S) (owes' : List Bytes) (s' : S)
        (r : List (ℕ × Received) × Status S)
        → owes' ≡ owes
        → s' ≡ s
        → IsSession keep_alive start m ending owes' s' r
        → IsSession keep_alive start m ending owes s r
    IsSession-of start ending owes s owes' s' r e f h =
        subst (λ (x : S). IsSession keep_alive start m ending owes x r) f
          (subst (λ (o : List Bytes). IsSession keep_alive start m ending o s' r) e h)
