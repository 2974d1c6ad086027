-- ===== src/Lib.antt =====
-- Seq's GELF input, `sqelf` (sqelf/src): GELF datagrams and streams are received, put together from
-- their chunks, and made into CLEF events.
--
-- The parts, and how they meet:
--   * the receiver (sqelf/src/receive.rs), Receive: `Gelf::decode` takes a datagram or a frame and
--     answers nothing, a message or an error. Receive/Gelf.antt has its state (`Gelf`, `ById`,
--     `ByArrival`) and `decode`, `chunked`, `gc`, `push`; where a function of the source returns
--     early or has a loop, a helper stands for the part: `clear_if_full` and `remove_expired` for the
--     halves of `gc`, `dispatch` for the match of `chunked`, `begin` and `join` for the branches of
--     `push`. Receive/Header, Compression, Chunks, Message and Time have the data that it handles;
--     Receive/Reader.antt has `ChunkRead::read` and `into_reader`, and Receive/Contents.antt what a
--     message gives that is read to its end, decompressed. Io.antt has the trait `MemRead`
--     (sqelf/src/io.rs), and Receive/Readable.antt its implementation for a message.
--   * the server (sqelf/src/server), Server: Tcp/Decode.antt cuts a stream into frames
--     (`Decode::decode` and `decode_eof`), Tcp/Accept.antt has `accept` and `accept_tls`,
--     Tcp/Connections.antt has `TimeoutStream` and the steps of `Listen::poll_next`,
--     Tcp/Connections/Polled.antt that function itself, over what is ready in each pass of its
--     loop, Tcp/Timed.antt the session of one connection, from its frames to its timeout, its
--     peer's close or an error of its socket, Tcp/Serving.antt the listener over all of these
--     sessions, Tcp/QuietClose.antt the errors of TLS, Udp.antt the decoder of datagrams,
--     Received.antt what the receiver's answers become, Loop.antt the loop of `build`,
--     Loop/Logged.antt what it logs, Build.antt what `build` checks before it, Config.antt the
--     configuration and `Bind::from_str`.
--   * the processor (sqelf/src/process), Process: Run.antt has `with_clef` and `read_as_clef`,
--     ToClef.antt `to_clef`, Clef.antt and Gelf.antt the two kinds of messages, Clef/Decimal.antt
--     `Timestamp::from_decimal`, Clef/Timestamp.antt how a timestamp is read and written, Str.antt
--     the borrowed and the inline texts of sqelf/src/process/str.rs, and Gelf/Texts.antt how a message
--     is made of them. Elsewhere a text stands for each of these; Str/Keys.antt is about the maps in
--     which they are keys.
--   * the configuration (sqelf/src/config.rs), Config.antt.
--   * the diagnostics (sqelf/src/diagnostics.rs), Diagnostics: the levels and `increment!` in
--     Diagnostics.antt, the atomic metrics and their `take` in Samples.antt, what is logged in
--     Events.antt, `init`, `stop` and the thread of the metrics in Lifecycle.antt, whose turns are a
--     relation.
--   * the entry point (sqelf/src/main.rs), Application: Application.antt gives the receiver and the
--     processor to the server for datagrams, Application/Streamed.antt does so for a connection,
--     Application/Start.antt has `run`, `main` and the thread that waits for the standard input.
--   * Common: lists, `HashMap` and `BTreeMap` as association lists, equality and order of keys.
--   Tests holds concrete runs, and Tests/Unit the unit tests of the source, run on the model.
--
-- State is passed explicitly, with the result beside it, since an error keeps what was done before
-- it. Each metric is a field of the state, next to the minimum level that `increment!` reads. A
-- reading of the clock is an argument. Bytes are natural numbers, of which nothing needs that they
-- are below 256; counters wrap with `%`. The three loops that are not structural run on fuel:
-- `enough` of Server/Tcp/Decode.antt is two for each byte and two more, since every turn drops
-- bytes or starts to discard; `enough` of Receive/Reader.antt is one for each chunk and two more,
-- since every turn but the last one finishes a chunk; `enough` of Receive/Contents.antt is one read
-- for each byte and one more, since every read but the last one gives a byte. Running out of fuel
-- is an outcome of its own, as is a panic.
--
-- A processor has a state in the loop of the server: its metric and the lines that it has printed.
-- The metrics that a part of the model counts are those that were added since the last sample.
--
-- Not modelled: sockets, TLS and the runtime (tokio, of which only the outcomes of a poll are
-- seen), the time of an event in the log and its JSON, the events that only say that a part starts
-- or that a connection fails, the integration tests, which are a harness around a running server.
-- The parsers of serde_json and humantime, the decimals of rust_decimal, the decoders of libflate,
-- the texts of string_cache, the hasher of a map, the files and addresses that `build` reads, and the
-- environment are parameters. How `FramedRead` of tokio_util calls the decoder, at the end of a socket
-- too, is written out in Tcp/Timed.antt. A clock that
-- leaves the range of the platform and memory that runs out are left aside.
pub mod Common
pub mod Diagnostics
pub mod Receive
pub mod Io
pub mod Server
pub mod Process
pub mod Config
pub mod Application
pub mod Tests
