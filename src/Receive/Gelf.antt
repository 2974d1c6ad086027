-- ===== src/Receive/Gelf.antt =====
-- `Gelf` of sqelf/src/receive.rs: the decoder's state and its operations. An operation returns the
-- state with its result, since an error leaves what was done before it in place. A reading of the
-- clock is an argument of each operation that takes one.
pub mod Cases
pub mod Bounds
pub mod Expiry
pub mod Invariant
pub mod Preserved
pub mod Slot
pub mod Assembly
pub mod Quiet
pub mod Refused
pub mod Delivery
pub mod Recovered
pub mod Reachable
pub mod Expired
use seq_input_gelf.Common.{
  ℕ, ◌+◌, ◌*◌, ◌%◌, ◌^◌, Bool, false, ◌&&◌, List, [], ◌∷◌, Option, none, some, ltb, leb, ◌==◌,
  if◌then◌else◌, length, nat_eq, nat_ord,
}
use seq_input_gelf.Common.HashMap
use seq_input_gelf.Common.BTreeMap
use seq_input_gelf.Diagnostics.{increment}
use seq_input_gelf.Receive.Outcome.{Bytes, Error, Result, ok, err}
use seq_input_gelf.Receive.Time.{
  SystemTime, UniqueTimestamp, timestamp_ord, duration_since_epoch, since, from_millis,
}
use seq_input_gelf.Receive.Compression.{magic_chunked, same_magic, peek_magic_bytes}
use seq_input_gelf.Receive.Header.{ChunkHeader}
use seq_input_gelf.Receive.Header
use seq_input_gelf.Receive.Message.{Message, new_single, new_chunked, detect_bytes}
use seq_input_gelf.Receive.Chunks.{Chunk, Chunks, into_values}
use seq_input_gelf.Receive.Chunks

pub record Config : Type 0 where
  pub incomplete_capacity : ℕ
  pub max_chunks_per_message : ℕ
  pub incomplete_timeout_ms : ℕ

abbrev pub default_config : Config
default_config = record {
  incomplete_capacity = 1024;
  max_chunks_per_message = 128;
  incomplete_timeout_ms = 5 * 1000;
}

pub record ById : Type 0 where
  pub chunks : List (ℕ × (Chunks × UniqueTimestamp))

pub record ByArrival : Type 0 where
  pub counter : ℕ
  pub chunks : List (UniqueTimestamp × ℕ)

-- `receive::Metrics`, with the minimum level that `increment!` asks for.
pub record Metrics : Type 0 where
  pub min_level : ℕ
  pub chunk : ℕ
  pub msg_chunked : ℕ
  pub msg_unchunked : ℕ
  pub msg_incomplete_chunk_overflow : ℕ

pub record Gelf : Type 0 where
  pub config : Config
  pub by_id : ById
  pub by_arrival : ByArrival
  pub metrics : Metrics

-- `Gelf::new`; the metrics are those of the process.
unfoldable pub new : Config → Metrics → Gelf
new config metrics = record {
  config = config;
  by_id = record { chunks = [] };
  by_arrival = record { counter = 0; chunks = [] };
  metrics = metrics;
}

-- `build`.
abbrev pub build : Config → Metrics → Gelf
build config metrics = new config metrics

abbrev pub count_chunk : Metrics → Metrics
count_chunk m = record m { chunk = increment m.min_level m.chunk }

abbrev pub count_chunked : Metrics → Metrics
count_chunked m = record m { msg_chunked = increment m.min_level m.msg_chunked }

abbrev pub count_unchunked : Metrics → Metrics
count_unchunked m = record m { msg_unchunked = increment m.min_level m.msg_unchunked }

abbrev pub count_overflow : Metrics → Metrics
count_overflow m = record m {
  msg_incomplete_chunk_overflow = increment m.min_level m.msg_incomplete_chunk_overflow;
}

-- The counter of arrivals is a `u64`.
abbrev pub u64_mod : ℕ
u64_mod = 2 ^ 64

-- `ByArrival::ts`: the next arrival key.
unfoldable pub ts : SystemTime → ByArrival → ByArrival × Result UniqueTimestamp
ts now a = elim (duration_since_epoch now) [
  | err e ↦ (a, err e)
  | ok d ↦ (
    record a { counter = (a.counter + 1) % u64_mod },
    ok (record { arrival = d; counter = a.counter }),
  )
]

-- The first half of `gc`: at the capacity every incomplete message is dropped.
unfoldable pub clear_if_full : Gelf → Gelf
clear_if_full g =
    if leb g.config.incomplete_capacity (length g.by_id.chunks)
    then record g {
      by_id = record { chunks = [] };
      by_arrival = record { counter = g.by_arrival.counter; chunks = [] };
      metrics = count_overflow g.metrics;
    }
    else g

-- The loop of `gc` over the expired arrivals.
unfoldable pub remove_all :
    List (UniqueTimestamp × ℕ)
    → List (ℕ × (Chunks × UniqueTimestamp))
    → List (UniqueTimestamp × ℕ)
    → List (ℕ × (Chunks × UniqueTimestamp)) × List (UniqueTimestamp × ℕ)
remove_all [] ids arrivals = (ids, arrivals)
remove_all ((by_arrival, by_id) ∷ rest) ids arrivals =
    remove_all rest (HashMap.remove by_id ids) (BTreeMap.remove by_arrival arrivals)

unfoldable pub remove_expired : UniqueTimestamp → Gelf → Gelf
remove_expired limit g =
    let to_remove = BTreeMap.range_below limit g.by_arrival.chunks in
    let rest = remove_all to_remove g.by_id.chunks g.by_arrival.chunks in
    record g {
      by_id = record { chunks = rest.0 };
      by_arrival = record { counter = g.by_arrival.counter; chunks = rest.1 };
    }

-- `Gelf::gc`.
unfoldable pub gc : SystemTime → Gelf → Gelf × Result (Unit {0})
gc now g =
    let cleared = clear_if_full g in
    elim (since now (from_millis g.config.incomplete_timeout_ms)) [
      | err e ↦ (cleared, err e)
      | ok limit ↦ (remove_expired limit cleared, ok tt)
    ]

-- The two insertions of a new message, under the arrival key that `ts` gave it.
unfoldable pub admit : UniqueTimestamp → ByArrival → ChunkHeader → Chunk → Gelf → Gelf
admit t arrivals header chunk g = record g {
  by_arrival = record arrivals { chunks = BTreeMap.insert t header.id arrivals.chunks };
  by_id = record {
    chunks = HashMap.insert header.id (Chunks.new header.seq_count chunk, t) g.by_id.chunks;
  };
}

-- The vacant branch of `push`: a new message begins.
unfoldable pub begin : SystemTime → ChunkHeader → Chunk → Gelf → Gelf × Result (Option Message)
unfolding ts
begin now header chunk g =
    let (arrivals, stamp) = ts now g.by_arrival in
    elim stamp [
      | err e ↦ (record g { by_arrival = arrivals }, err e)
      | ok t ↦ (admit t arrivals header chunk g, ok none)
    ]

-- The occupied branch of `push`, past its guard: the chunk joins its message.
unfoldable pub join : ChunkHeader → Chunk → Chunks → UniqueTimestamp → Gelf → Gelf × Option Message
join header chunk chunks arrival g =
    let chunks' = Chunks.insert chunk chunks in
    if Chunks.is_complete chunks'
    then (
      record g {
        by_id = record { chunks = HashMap.remove header.id g.by_id.chunks };
        by_arrival = record g.by_arrival { chunks = BTreeMap.remove arrival g.by_arrival.chunks };
        metrics = count_chunked g.metrics;
      },
      new_chunked (into_values chunks'),
    )
    else (
      record g {
        by_id = record { chunks = HashMap.insert header.id (chunks', arrival) g.by_id.chunks };
      },
      none,
    )

-- `Gelf::push`.
unfoldable pub push : SystemTime → ChunkHeader → Chunk → Gelf → Gelf × Result (Option Message)
push now header chunk g = elim (HashMap.get header.id g.by_id.chunks) [
  | none ↦ begin now header chunk g
  | some (chunks, arrival) ↦
      if chunks.expected_total == header.seq_count
      then (let r = join header chunk chunks arrival g in (r.0, ok r.1))
      else (g, err (Error.inconsistent_total header.seq_count chunks.expected_total))
]

-- The match of `chunked` on the header: a lone chunk, too many chunks, or one of several.
unfoldable pub dispatch : SystemTime → ChunkHeader → Bytes → Gelf → Gelf × Result (Option Message)
dispatch now header src g =
    if header.seq_num == 0 && header.seq_count == 1
    then (g, ok (new_single (detect_bytes src) src))
    else (if ltb g.config.max_chunks_per_message header.seq_count
        then (g, err (Error.too_many_chunks header.seq_count g.config.max_chunks_per_message))
        else push now header (record { seq = header.seq_num; bytes = src }) g)

-- The two readings of the clock that one datagram may take: in `gc`, and when a message begins.
pub record Readings : Type 0 where
  pub at_gc : SystemTime
  pub at_push : SystemTime

-- `Gelf::chunked`.
unfoldable pub chunked : Readings → Bytes → Gelf → Gelf × Result (Option Message)
chunked now src g =
    let (g', swept) = gc now.at_gc g in
    elim swept [
      | err e ↦ (g', err e)
      | ok _ ↦ elim (Header.get src) [
        | err e ↦ (g', err e)
        | ok (header, rest) ↦ dispatch now.at_push header rest g'
      ]
    ]

-- `magic == Some(Message::MAGIC_CHUNKED)`.
unfoldable pub is_chunk : Bytes → Bool
unfolding peek_magic_bytes
is_chunk src = elim (peek_magic_bytes src) [
  | none ↦ false
  | some magic ↦ same_magic magic magic_chunked
]

-- `Gelf::decode`.
unfoldable pub decode : Readings → Bytes → Gelf → Gelf × Result (Option Message)
decode now src g =
    if is_chunk src
    then chunked now src (record g { metrics = count_chunk g.metrics })
    else (record g { metrics = count_unchunked g.metrics }, ok (new_single (detect_bytes src) src))
