-- ===== src/Server/Tcp/Timed.antt =====
-- `TimeoutStream` of sqelf/src/server/tcp.rs around the frames of a connection, over time. When the
-- connection is polled, what has arrived by then, and whether the socket has ended or failed, are
-- arguments, as is the timeout of tokio.
pub mod Polls
pub mod Drained
pub mod Framed
pub mod Turns
pub mod Silent
pub mod Ended
pub mod Armed
pub mod Sessions
use seq_input_gelf.Common.{
  ℕ, ◌≤◌, ◌<◌, ◌≡◌, Bool, true, false, List, [], ◌∷◌, ◌++◌, Option, none, some, if◌then◌else◌,
}
use seq_input_gelf.Receive.Outcome.{Bytes, Error, Result}
use seq_input_gelf.Receive.Message.{Message}
use seq_input_gelf.Server.Metrics.{Metrics}
use seq_input_gelf.Server.Received.{Received}
use seq_input_gelf.Server.Tcp.Decode.{Connection, Answer, item, panic, decode, decode_eof}
use seq_input_gelf.Server.Tcp.Decode.Stream.{receive_more, opened}
use seq_input_gelf.Server.Tcp.Connections.{
  TimeoutStream, Item, valid, failed, Timeout, elapsed, produced, waiting, Poll, ready, pending,
  poll_next, new, count_close, count_receive_err,
}

-- What tokio says of `timeout`, which is asked whether it elapses at a time, with the time that was set,
-- and whether its future is ready: not before that time, and from then on if the future is not ready.
pub record IsTimeout (elapses : (now deadline : ℕ) → (is_ready : Bool) → Bool) : Type 0 where
  pub early :
      (now deadline : ℕ) (is_ready : Bool) → now < deadline → elapses now deadline is_ready ≡ false
  pub late : (now deadline : ℕ) → deadline ≤ now → elapses now deadline false ≡ true

-- How a socket stands behind the bytes that have arrived: it is connected, its peer has closed it, or reading
-- it fails, with an error that only goes to the log, so that any value stands for it.
pub data Ending : Type 0 where
  connected : Ending
  eof : Ending
  broken : Error → Ending

-- What is to be read: pieces, and how the socket stands behind them.
pub record Socket : Type 0 where
  pub reads : List Bytes
  pub ending : Ending

-- What arrives; nothing does at a socket that has ended.
unfoldable pub arrive : Socket → Socket → Socket
arrive more socket = elim socket.ending [
  | connected ↦ record { reads = socket.reads ++ more.reads; ending = more.ending }
  | eof ↦ socket
  | broken e ↦ socket
]

-- How a connection ends: not yet, without an item more, which its timeout and its peer's close come to,
-- with an error of its socket, or with a panic of the decoder.
pub data Status (S : Type 0) : Type 0 where
  running : TimeoutStream (Connection S) → Status S
  closed : (now : ℕ) → Metrics → Status S
  errored : (now : ℕ) → Error → Metrics → Status S
  panicked : Status S

-- `Pin::new(&mut unpinned.stream).poll(cx)`, for a stream that is polled with an outcome and is left as
-- given.
unfoldable pub poll_timeout :
    {X : Type 0}
    → (ℕ → ℕ → Bool → Bool)
    → ℕ
    → ℕ
    → Poll (Option (Item Received))
    → X
    → Timeout X Received
poll_timeout elapses now deadline pending stream =
    if elapses now deadline false then elapsed else waiting
poll_timeout elapses now deadline (ready x) stream =
    if elapses now deadline true then elapsed else produced x stream

-- What `Listen::poll_next` makes of a poll of a connection: an item is kept, with its time, and the
-- connection is polled on; one that failed or ended is dropped.
unfoldable pub after_poll :
    {S : Type 0}
    → ℕ
    → Poll (Option (Item Received)) × (TimeoutStream (Connection S) × Metrics)
    → (TimeoutStream (Connection S) → Metrics → List (ℕ × Received) × Status S)
    → List (ℕ × Received) × Status S
after_poll now (pending, (t, m)) rest = rest t m
after_poll now (ready none, (t, m)) rest = ([], closed now (count_close m))
after_poll now (ready (some (failed e)), (t, m)) rest =
    ([], errored now e (count_close (count_receive_err m)))
after_poll now (ready (some (valid x)), (t, m)) rest =
    let (items, status) = rest t m in ((now, x) ∷ items, status)

module _ {S : Type 0} (receive : Bytes → S → S × Result (Option Message)) where
  -- The caller of the decoder: it asks for a frame, and reads from the socket while there is none.
  -- What it does not read stays in the socket.
  unfoldable pub poll_framed : List Bytes → Connection S → Answer × (List Bytes × Connection S)
  poll_framed [] c = let (c', a) = decode receive c in (a, ([], c'))
  poll_framed (bytes ∷ socket) c =
      let (c', a) = decode receive c in
      let rest = poll_framed socket (receive_more receive bytes c') in
      elim a [
        | item none ↦ rest
        | item (some x) ↦ (item (some x), (bytes ∷ socket, c'))
        | panic ↦ (panic, (bytes ∷ socket, c'))
      ]

  -- What a poll of the stream of frames comes to, with what it leaves; no outcome is a panic.
  abbrev pub Framed : Type 0
  Framed = Option (Poll (Option (Item Received))) × (List Bytes × Connection S)

  -- What an answer of `decode_eof` comes to: without a frame, the stream has ended.
  abbrev pub last_outcome : Answer → Option (Poll (Option (Item Received)))
  last_outcome panic = none
  last_outcome (item none) = some (ready none)
  last_outcome (item (some x)) = some (ready (some (valid x)))

  -- All that has arrived is read, and no frame is there.
  unfoldable pub poll_end : Ending → List Bytes → Connection S → Framed
  unfolding decode_eof
  poll_end connected reads c = (some pending, (reads, c))
  poll_end eof reads c = let (c', a) = decode_eof receive c in (last_outcome a, (reads, c'))
  poll_end (broken e) reads c = (some (ready (some (failed e))), (reads, c))

  -- `FramedRead::poll_next`.
  unfoldable pub poll_stream : Socket → Connection S → Framed
  unfolding poll_framed poll_end
  poll_stream socket c =
      let (a, (reads, c')) = poll_framed socket.reads c in
      elim a [
        | item none ↦ poll_end socket.ending reads c'
        | item (some x) ↦ (some (ready (some (valid x))), (reads, c'))
        | panic ↦ (none, (reads, c'))
      ]

  module _ (elapses : ℕ → ℕ → Bool → Bool) where
    -- Poll after poll, each at a time and with what has arrived since the last one: the items, each
    -- with its time, and how it ends.
    unfoldable pub serve :
        List (ℕ × Socket)
        → Socket
        → TimeoutStream (Connection S)
        → Metrics
        → List (ℕ × Received) × Status S
    unfolding arrive poll_stream poll_timeout poll_next after_poll
    serve [] socket t m = ([], running t)
    serve ((now, arrived) ∷ polls) socket t m =
        let there = arrive arrived socket in
        let (a, (reads, c)) = poll_stream there t.stream in
        let polled = record t { stream = c } in
        elim a [
          | none ↦ ([], panicked)
          | some outcome ↦
              after_poll now
                (poll_next now (poll_timeout elapses now t.deadline outcome c) polled m)
                (λ t' m'. serve polls (record there { reads = reads }) t' m')
        ]

    -- The session of a connection that is accepted at a time.
    unfoldable pub session :
        (max_size_bytes keep_alive start : ℕ)
        → Metrics
        → S
        → List (ℕ × Socket)
        → List (ℕ × Received) × Status S
    unfolding serve new opened
    session max_size_bytes keep_alive start m s polls =
        let (t, m') = new start keep_alive (opened receive max_size_bytes m s) m in
        serve polls (record { reads = []; ending = connected }) t m'
