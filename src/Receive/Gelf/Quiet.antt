-- ===== src/Receive/Gelf/Quiet.antt =====
-- A chunk that arrives while nothing is cleaned away goes straight to `push`.
use seq_input_gelf.Common.{ℕ, ◌<◌, ◌^◌, ◌≡◌, refl, [], arith, nat_eq, true}
use seq_input_gelf.Common.BTreeMap
use seq_input_gelf.Receive.Outcome.{Bytes, ok}
use seq_input_gelf.Receive.Time.{
  SystemTime, UniqueTimestamp, timestamp_ord, since, from_millis, duration_since_epoch,
}
use seq_input_gelf.Receive.Header.{ChunkHeader}
use seq_input_gelf.Receive.Header
use seq_input_gelf.Receive.Header.RoundTrip.{get-chunk}
use seq_input_gelf.Receive.Chunks.{Chunk}
use seq_input_gelf.Receive.Gelf.Bounds.{waiting}
use seq_input_gelf.Receive.Gelf.Cases.{IsSeveral}
use seq_input_gelf.Receive.Gelf.{
  Gelf, Readings, count_chunk, clear_if_full, remove_all, remove_expired, gc, push, dispatch,
  chunked, is_chunk, decode,
}

-- A chunk as it is sent, and the readings of the clock while it is decoded.
pub record Delivery : Type 0 where
  pub now : Readings
  pub header : ChunkHeader
  pub bytes : Bytes

abbrev pub datagram : Delivery → Bytes
datagram d = Header.chunk d.header.id d.header.seq_num d.header.seq_count d.bytes

abbrev pub piece : Delivery → Chunk
piece d = record { seq = d.header.seq_num; bytes = d.bytes }

-- The chunk is one of several, the decoder has room, nothing has expired, and the clock is past the
-- epoch.
pub record IsQuiet (d : Delivery) (g : Gelf) : Type 0 where
  pub id_fits : d.header.id < 2 ^ 64
  pub several : IsSeveral g d.header
  pub room : waiting g < g.config.incomplete_capacity
  pub limit : UniqueTimestamp
  pub limit_at : since d.now.at_gc (from_millis g.config.incomplete_timeout_ms) ≡ ok limit
  pub unexpired : BTreeMap.range_below limit g.by_arrival.chunks ≡ []
  pub arrival : ℕ
  pub clock : duration_since_epoch d.now.at_push ≡ ok arrival

remove_expired_none :
    (limit : UniqueTimestamp) (g : Gelf)
    → BTreeMap.range_below limit g.by_arrival.chunks ≡ []
    → remove_expired limit g ≡ g
unfolding remove_expired remove_all
remove_expired_none limit g e = rw e

gc_quiet :
    (now : SystemTime) (g : Gelf) (limit : UniqueTimestamp)
    → waiting g < g.config.incomplete_capacity
    → since now (from_millis g.config.incomplete_timeout_ms) ≡ ok limit
    → BTreeMap.range_below limit g.by_arrival.chunks ≡ []
    → gc now g ≡ (g, ok tt)
unfolding gc clear_if_full
gc_quiet now g limit room e none_old = ground (arith, remove_expired_none limit g none_old)

dispatch_several :
    (now : SystemTime) (h : ChunkHeader) (src : Bytes) (g : Gelf)
    → IsSeveral g h
    → dispatch now h src g ≡ push now h (record { seq = h.seq_num; bytes = src }) g
unfolding dispatch
dispatch_several now h src g (inside, several, few) = ground arith

is_chunk-chunk : (id s n : ℕ) (bytes : Bytes) → is_chunk (Header.chunk id s n bytes) ≡ true
unfolding is_chunk Header.chunk
is_chunk-chunk id s n bytes = refl

chunked_quiet :
    (d : Delivery) (g : Gelf)
    → IsQuiet d g
    → chunked d.now (datagram d) g ≡ push d.now.at_push d.header (piece d) g
unfolding chunked
chunked_quiet d g q =
    rw (gc_quiet d.now.at_gc g q.limit q.room q.limit_at q.unexpired, chunked)
      (rw (get-chunk h.id h.seq_num h.seq_count d.bytes q.id_fits q.several.0) (
        rw (gc_quiet d.now.at_gc g q.limit q.room q.limit_at q.unexpired)
          (dispatch_several d.now.at_push h d.bytes g q.several)))
  where
    h : ChunkHeader
    h = d.header

-- Decoding such a datagram counts it and pushes the chunk that the client encoded.
pub decode_quiet :
    (d : Delivery) (g : Gelf)
    → IsQuiet d g
    → decode d.now (datagram d) g
      ≡ push d.now.at_push d.header (piece d) (record g { metrics = count_chunk g.metrics })
unfolding decode
decode_quiet d g q = rw (is_chunk-chunk d.header.id d.header.seq_num d.header.seq_count d.bytes) (
    chunked_quiet d (record g { metrics = count_chunk g.metrics })
      (record {
        id_fits = q.id_fits;
        several = q.several;
        room = q.room;
        limit = q.limit;
        limit_at = q.limit_at;
        unexpired = q.unexpired;
        arrival = q.arrival;
        clock = q.clock;
      }))
