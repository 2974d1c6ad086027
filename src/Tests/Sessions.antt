-- ===== src/Tests/Sessions.antt =====
-- Connections of sqelf/src/server/tcp.rs over time: one that completes no frame, and some that end; and
-- three at once.
use seq_input_gelf.Common.{
  ℕ, ◌<◌, ◌≡◌, refl, Bool, true, false, List, [], ◌∷◌, ◌++◌, leb, arith, none,
}
use seq_input_gelf.Receive.Outcome.{Bytes, Error}
use seq_input_gelf.Receive.Reader.Stream.{concat}
use seq_input_gelf.Server.Tcp.Decode.Segments.{frames}
use seq_input_gelf.Server.Tcp.Connections.{count_accept, count_timeout, count_close}
use seq_input_gelf.Server.Tcp.Timed.{IsTimeout, Socket, connected, eof, broken, closed, session}
use seq_input_gelf.Server.Tcp.Timed.Silent.{sent, opens, still, silent-closes}
use seq_input_gelf.Server.Tcp.Timed.Ended.{ends, until_end, IsSession}
use seq_input_gelf.Server.Tcp.Timed.Sessions.{session-IsSession}
use seq_input_gelf.Server.Tcp.Connections.{listen}
use seq_input_gelf.Server.Tcp.Serving.{Turn, accept, poll, serve_all}
use seq_input_gelf.Server.Tcp.Serving.Own.{own, polls_of}
use seq_input_gelf.Server.Tcp.Serving.Alone.{accepts, arrival, serve_all-alone}
use seq_input_gelf.Server.Received.{complete, into_received}
use seq_input_gelf.Server.Tcp.Decode.{next_frame, position}
use seq_input_gelf.Receive.Message.{single}
use seq_input_gelf.Tests.Server.{metrics, receive}

-- A timeout that looks at its future first, as tokio's does.
abbrev elapses : ℕ → ℕ → Bool → Bool
elapses now deadline true = false
elapses now deadline false = leb deadline now

elapses_early :
    (now deadline : ℕ) (is_ready : Bool) → now < deadline → elapses now deadline is_ready ≡ false
elapses_early now deadline true h = refl
elapses_early now deadline false h = ground (arith, h)

elapses-IsTimeout : IsTimeout elapses
elapses-IsTimeout = record { early = elapses_early; late = λ now deadline h. ground (arith, h) }

-- It sends now and then, but no null byte.
abbrev drips : List (ℕ × List Bytes)
drips = (10, (1 ∷ 2 ∷ []) ∷ []) ∷ (100, (3 ∷ []) ∷ (4 ∷ 5 ∷ 6 ∷ []) ∷ []) ∷ []

silent-closes_example :
    session receive elapses 3 120 3 metrics 0 (opens drips ++ (123, still ((7 ∷ []) ∷ [])) ∷ [])
    ≡ ([], closed 123 (count_close (count_timeout (count_accept metrics))))
unfolding sent concat frames
silent-closes_example =
    silent-closes receive elapses elapses-IsTimeout 123 ((7 ∷ []) ∷ []) [] 3 120 3 metrics 0 drips
      (omega arith, (omega arith, tt)) (omega arith) refl

-- Its frame comes in two reads, and the peer closes the socket behind a second one.
abbrev stops : List (ℕ × Socket)
stops =
    (10, still ((1 ∷ []) ∷ []))
    ∷ (50, still ((2 ∷ 0 ∷ 3 ∷ []) ∷ []))
    ∷ (123, record { reads = (4 ∷ []) ∷ []; ending = eof })
    ∷ (130, still [])
    ∷ []

session-IsSession_example :
    IsSession receive 120 3
      (count_accept metrics)
      (ends connected stops)
      (frames 3 false (until_end stops))
      0
      (session receive elapses 3 120 3 metrics 0 stops)
session-IsSession_example =
    session-IsSession receive elapses elapses-IsTimeout 3 120 3 metrics 0 stops

-- It gives both frames, and is then closed without a timeout.
stops-closed : session receive elapses 3 120 3 metrics 0 stops ≡ (
  (50, complete (single none (1 ∷ 2 ∷ []))) ∷ (123, complete (single none (3 ∷ 4 ∷ []))) ∷ [],
  closed 130 (count_close (count_accept metrics)),
)
unfolding session next_frame position into_received
stops-closed = refl

-- Four connections: the bytes of the first are slow, the third fails, and the peer of the fourth closes
-- its socket, which does not matter to the second.
abbrev several : List Turn
several =
    accept 3
    ∷ accept 4
    ∷ accept 4
    ∷ accept 5
    ∷ poll 10 0 (still ((1 ∷ []) ∷ []))
    ∷ poll 10 2 (record { reads = (9 ∷ []) ∷ []; ending = broken Error.clock })
    ∷ poll 11 1 (still ((5 ∷ 0 ∷ []) ∷ []))
    ∷ poll 12 3 (record { reads = []; ending = eof })
    ∷ poll 12 0 (still ((2 ∷ 0 ∷ []) ∷ []))
    ∷ poll 13 1 (still ((6 ∷ 0 ∷ []) ∷ []))
    ∷ poll 132 0 (still [])
    ∷ []

serve_all-alone_example :
    own 1 (serve_all receive elapses 3 metrics 0 several 0 (listen 120 4 metrics))
    ≡ (session receive elapses 3 120 4 metrics 0
        ((11, still ((5 ∷ 0 ∷ []) ∷ [])) ∷ (13, still ((6 ∷ 0 ∷ []) ∷ [])) ∷ [])).0
unfolding accepts arrival polls_of
serve_all-alone_example =
    serve_all-alone receive elapses 3 metrics 0 1 120 4 4 metrics
      ((11, still ((5 ∷ 0 ∷ []) ∷ [])) ∷ (13, still ((6 ∷ 0 ∷ []) ∷ [])) ∷ []) several (omega arith)
      refl
