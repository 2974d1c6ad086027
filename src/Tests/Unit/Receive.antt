-- ===== src/Tests/Unit/Receive.antt =====
-- The unit tests of sqelf/src/receive.rs, run on the model. Those of compressed messages need an encoder
-- of libflate; Tests/Contents.antt has their like.
use Prim.Native.String.{String}
use Prim.Native.Char.{code}
use seq_input_gelf.Common.{ℕ, ◌≡◌, refl, List, [], ◌∷◌, Option, none, some, length, map}
use seq_input_gelf.Common.HashMap
use seq_input_gelf.Common.BTreeMap
use seq_input_gelf.Receive.Outcome.{Bytes, Result, ok, err, too_many_chunks, bad_sequence}
use seq_input_gelf.Receive.Message.{
  Message, single, chunked, new_single, new_chunked, detect_bytes, compression,
}
use seq_input_gelf.Receive.Header
use seq_input_gelf.Receive.Chunks
use seq_input_gelf.Receive.Compression.{peek_magic_bytes, detect}
use seq_input_gelf.Receive.Time.{duration_since_epoch, since, minus}
use seq_input_gelf.Receive.Gelf.{
  Gelf, default_config, new, decode, push, gc, clear_if_full, remove_expired,
  chunked as decode_chunked, is_chunk, dispatch, begin, admit, ts, join, remove_all,
}
use seq_input_gelf.Receive.Contents.{contents, inflate}
use seq_input_gelf.Receive.Reader.Stream.{body}
use seq_input_gelf.Receive.Reader.{read, open_msg, read_loop, advance}
use seq_input_gelf.Tests.Contents.{reading}
use seq_input_gelf.Tests.Receive.{metrics, at}

-- `b"…"`.
unfoldable ascii : String → Bytes
ascii String.[] = []
ascii (String.◌∷◌ c s) = code c ∷ ascii s

-- The calls of a test, each with the time since its start in nanoseconds.
unfoldable calls : List (ℕ × Bytes) → Gelf → Gelf × List (Result (Option Message))
unfolding decode
calls [] g = (g, [])
calls ((time, src) ∷ rest) g =
    let (g', result) = decode (at time) src g in
    let (g'', results) = calls rest g' in (g'', result ∷ results)

unfoldable chunk : ℕ → ℕ → ℕ → String → ℕ × Bytes
unfolding ascii Header.chunk
chunk id seq_num seq_total text = (0, Header.chunk id seq_num seq_total (ascii text))

abbrev gelf : Gelf
gelf = new default_config metrics

abbrev message_empty : List (Result (Option Message))
message_empty = (calls ((0, []) ∷ []) gelf).1

abbrev message_unchunked : List (Result (Option Message))
message_unchunked = (calls ((0, ascii "Hello!") ∷ []) gelf).1

abbrev message_single_chunk : List (Result (Option Message))
message_single_chunk = (calls (chunk 0 0 1 "Hello!" ∷ []) gelf).1

abbrev message_chunked_empty : List (Result (Option Message))
message_chunked_empty = (calls (chunk 0 0 1 "" ∷ []) gelf).1

abbrev message_multiple_chunks : List (Result (Option Message))
message_multiple_chunks =
    (calls (chunk 0 0 3 "Hello" ∷ chunk 0 2 3 "!" ∷ chunk 0 1 3 " World" ∷ []) gelf).1

-- The sizes of the two indexes, and the messages that are waiting.
abbrev kept : Gelf → ℕ × ℕ × List ℕ
kept g = (length g.by_id.chunks, length g.by_arrival.chunks, map (λ e. e.0) g.by_id.chunks)

abbrev small : Gelf
small = new (record default_config { incomplete_capacity = 2 }) metrics

abbrev when_capacity_is_reached : (ℕ × ℕ × List ℕ) × (ℕ × ℕ × List ℕ)
when_capacity_is_reached =
    let two = (calls (chunk 0 0 3 "1" ∷ chunk 1 0 3 "2" ∷ []) small).0 in
    (kept two, kept (calls (chunk 2 0 3 "2" ∷ []) two).0)

-- The last chunk arrives five milliseconds later.
abbrev when_timeout_expires : ℕ × ℕ × List ℕ
when_timeout_expires =
    kept
      (calls (chunk 0 0 3 "1" ∷ chunk 1 0 3 "2" ∷ (5_000_000, (chunk 2 0 3 "2").1) ∷ [])
        (new (record default_config { incomplete_timeout_ms = 2 }) metrics)).0

abbrev too_many_chunks_fails : List (Result (Option Message))
too_many_chunks_fails =
    (calls (chunk 0 0 3 "1" ∷ [])
      (new (record default_config { max_chunks_per_message = 1 }) metrics)).1

abbrev more_chunks_than_expected_fails : List (Result (Option Message))
more_chunks_than_expected_fails = (calls (chunk 0 0 3 "1" ∷ chunk 0 3 3 "3" ∷ []) gelf).1

-- What the first message of some results gives, read to its end.
unfoldable read_first : List (Result (Option Message)) → Option Bytes
unfolding contents
read_first [] = none
read_first (ok none ∷ rest) = read_first rest
read_first (err e ∷ rest) = none
read_first (ok (some msg) ∷ rest) = contents reading.inflates reading.buffer msg

abbrev read_message_unchunked_uncompressed : Option Bytes
read_message_unchunked_uncompressed = read_first (calls ((0, ascii "Hello!") ∷ []) gelf).1

abbrev read_message_chunked_uncompressed : Option Bytes
read_message_chunked_uncompressed =
    read_first (calls (chunk 0 0 3 "Hello" ∷ chunk 0 2 3 "!" ∷ chunk 0 1 3 " World" ∷ []) gelf).1

-- Each test has the result its assertion asks for.
all_pass :
    (message_empty ≡ ok none ∷ [])
    × (message_unchunked ≡ ok (some (single none (ascii "Hello!"))) ∷ [])
    × (message_single_chunk ≡ ok (some (single none (ascii "Hello!"))) ∷ [])
    × (message_chunked_empty ≡ ok none ∷ [])
    × (message_multiple_chunks
        ≡ ok none
          ∷ ok none
          ∷ ok (some (chunked (ascii "Hello" ∷ ascii " World" ∷ ascii "!" ∷ [])))
          ∷ [])
    × (when_capacity_is_reached ≡ ((2, 2, 0 ∷ 1 ∷ []), (1, 1, 2 ∷ [])))
    × (when_timeout_expires ≡ (1, 1, 2 ∷ []))
    × (too_many_chunks_fails ≡ err (too_many_chunks 3 1) ∷ [])
    × (more_chunks_than_expected_fails ≡ ok none ∷ err (bad_sequence 3 4) ∷ [])
    × (read_message_unchunked_uncompressed ≡ some (ascii "Hello!"))
    × (read_message_chunked_uncompressed ≡ some (ascii "Hello World!"))
unfolding calls chunk ascii new decode decode_chunked is_chunk peek_magic_bytes detect gc
    clear_if_full remove_expired since minus duration_since_epoch Header.get Header.read_fields
    Header.from_be Header.chunk Header.to_be dispatch push remove_all begin admit ts join
    HashMap.get HashMap.insert HashMap.remove BTreeMap.range_below BTreeMap.insert BTreeMap.remove
    BTreeMap.get Chunks.new Chunks.insert Chunks.is_complete new_single new_chunked detect_bytes
    compression read_first inflate body read open_msg read_loop advance
all_pass = (refl, refl, refl, refl, refl, refl, refl, refl, refl, refl, refl)
