-- ===== src/Tests/Receive.antt =====
-- The decoder of sqelf/src/receive.rs on three datagrams of two messages.
use seq_input_gelf.Common.{ℕ, ◌+◌, ◌<◌, ◌≡◌, refl, List, [], ◌∷◌, none, arith, map, nat_eq, nat_ord}
use seq_input_gelf.Common.HashMap
use seq_input_gelf.Common.BTreeMap
use seq_input_gelf.Common.{zero, suc, get_elem?, take}
use seq_input_gelf.Receive.Gelf.Recovered.{deliver-reads}
use seq_input_gelf.Receive.Reader.{reads, open_msg, done}
use seq_input_gelf.Receive.Reader.Stream.{concat}
use seq_input_gelf.Receive.Reader.Body.{sum}
use seq_input_gelf.Common.{if◌then◌else◌, some}
use seq_input_gelf.Receive.Time.{UniqueTimestamp, timestamp_lt}
use seq_input_gelf.Receive.Gelf.Expired.{gc-expires}
use seq_input_gelf.Receive.Gelf.Reachable.{decode_all, reachable-Inv}
use seq_input_gelf.Receive.Outcome.{Bytes, ok}
use seq_input_gelf.Receive.Time.{since_epoch, timestamp_ord, duration_since_epoch, since, minus}
use seq_input_gelf.Receive.Message.{chunked}
use seq_input_gelf.Receive.Header
use seq_input_gelf.Receive.Header.{ChunkHeader}
use seq_input_gelf.Receive.Header.RoundTrip.{get-chunk}
use seq_input_gelf.Receive.Compression.{peek_magic_bytes}
use seq_input_gelf.Receive.Chunks
use seq_input_gelf.Receive.Chunks.{Chunk}
use seq_input_gelf.Receive.Gelf.Bounds.{IsBounded, decode-IsBounded}
use seq_input_gelf.Receive.Gelf.Invariant.{Inv, new-Inv}
use seq_input_gelf.Receive.Gelf.Preserved.{decode-Inv}
use seq_input_gelf.Receive.Gelf.Slot.{pending, offer, push-offer}
use seq_input_gelf.Receive.Gelf.Assembly.{offers, payload, in_order, answers, IsWhole}
use seq_input_gelf.Receive.Gelf.Quiet.{Delivery, datagram, piece, IsQuiet}
use seq_input_gelf.Receive.Gelf.Delivery.{deliver, mine, AllQuiet, deliver-offers, deliver_whole}
use seq_input_gelf.Receive.Gelf.{
  Gelf, Metrics, Readings, default_config, new, decode, push, u64_mod, gc, clear_if_full,
  remove_expired, chunked as decode_chunked, is_chunk, dispatch, begin, admit, ts, join, remove_all,
}

abbrev pub metrics : Metrics
metrics = record {
  min_level = 0;
  chunk = 0;
  msg_chunked = 0;
  msg_unchunked = 0;
  msg_incomplete_chunk_overflow = 0;
}

abbrev pub fresh : Gelf
fresh = new default_config metrics

abbrev pub at : ℕ → Readings
at n = record {
  at_gc = since_epoch (10_000_000_000 + n);
  at_push = since_epoch (10_000_000_000 + n);
}

abbrev pub delivery : ℕ → ℕ → ℕ → Bytes → Delivery
delivery n id seq_num bytes = record {
  now = at n;
  header = record { id = id; seq_num = seq_num; seq_count = 2 };
  bytes = bytes;
}

abbrev pub second : Delivery
second = delivery 0 7 1 (4 ∷ 5 ∷ [])

abbrev other : Delivery
other = delivery 1 9 0 (8 ∷ [])

abbrev first : Delivery
first = delivery 2 7 0 (3 ∷ [])

abbrev pub deliveries : List Delivery
deliveries = second ∷ other ∷ first ∷ []

abbrev pub pieces : List Chunk
pieces = record { seq = 1; bytes = 4 ∷ 5 ∷ [] } ∷ record { seq = 0; bytes = 3 ∷ [] } ∷ []

abbrev pub after_second : Gelf
after_second = (decode (at 0) (datagram second) fresh).0

abbrev after_other : Gelf
after_other = (decode (at 1) (datagram other) after_second).0

second-IsQuiet : IsQuiet second fresh
unfolding new decode decode_chunked is_chunk peek_magic_bytes gc clear_if_full remove_expired since
    minus duration_since_epoch Header.get Header.read_fields Header.from_be Header.chunk
    Header.to_be dispatch push remove_all begin admit ts join HashMap.get HashMap.insert
    HashMap.remove BTreeMap.range_below BTreeMap.insert BTreeMap.remove BTreeMap.get Chunks.new
    Chunks.insert Chunks.is_complete
second-IsQuiet = record {
  id_fits = omega arith;
  several = (omega arith, omega arith, omega arith);
  room = omega arith;
  limit = record { arrival = 5000000000; counter = 0 };
  limit_at = refl;
  unexpired = refl;
  arrival = 10000000000;
  clock = refl;
}

other-IsQuiet : IsQuiet other after_second
unfolding new decode decode_chunked is_chunk peek_magic_bytes gc clear_if_full remove_expired since
    minus duration_since_epoch Header.get Header.read_fields Header.from_be Header.chunk
    Header.to_be dispatch push remove_all begin admit ts join HashMap.get HashMap.insert
    HashMap.remove BTreeMap.range_below BTreeMap.insert BTreeMap.remove BTreeMap.get Chunks.new
    Chunks.insert Chunks.is_complete
other-IsQuiet = record {
  id_fits = omega arith;
  several = (omega arith, omega arith, omega arith);
  room = omega arith;
  limit = record { arrival = 5000000001; counter = 0 };
  limit_at = refl;
  unexpired = refl;
  arrival = 10000000001;
  clock = refl;
}

first-IsQuiet : IsQuiet first after_other
unfolding new decode decode_chunked is_chunk peek_magic_bytes gc clear_if_full remove_expired since
    minus duration_since_epoch Header.get Header.read_fields Header.from_be Header.chunk
    Header.to_be dispatch push remove_all begin admit ts join HashMap.get HashMap.insert
    HashMap.remove BTreeMap.range_below BTreeMap.insert BTreeMap.remove BTreeMap.get Chunks.new
    Chunks.insert Chunks.is_complete
first-IsQuiet = record {
  id_fits = omega arith;
  several = (omega arith, omega arith, omega arith);
  room = omega arith;
  limit = record { arrival = 5000000002; counter = 0 };
  limit_at = refl;
  unexpired = refl;
  arrival = 10000000002;
  clock = refl;
}

pub all_quiet : AllQuiet deliveries fresh
unfolding AllQuiet
all_quiet = (second-IsQuiet, (other-IsQuiet, (first-IsQuiet, tt)))

pub pieces-IsWhole : IsWhole 2 pieces
pieces-IsWhole = record {
  count = refl;
  numbered = (omega arith, (omega arith, tt));
  distinct = ((omega arith, tt), (tt, tt));
}

deliver_whole_example :
    (pending 7 (deliver 7 deliveries fresh).0 ≡ none)
    × ((deliver 7 deliveries fresh).1 ≡ answers 1 (chunked (in_order 2 0 (λ i. payload i pieces))))
unfolding mine pending new HashMap.get
deliver_whole_example =
    deliver_whole 7 2 deliveries pieces fresh all_quiet refl refl pieces-IsWhole (omega arith)

abbrev pub contents : List Bytes
contents = (3 ∷ []) ∷ (4 ∷ 5 ∷ []) ∷ []

pub sent : (i : ℕ) → payload i pieces ≡ get_elem? contents i
unfolding payload
sent zero = refl
sent (suc zero) = refl
sent (suc (suc i)) = ground arith

deliver-reads_example :
    ((deliver 7 deliveries fresh).1 ≡ answers 1 (chunked contents))
    × (reads (2 ∷ 5 ∷ []) (open_msg (chunked contents))
        ≡ done (take (sum (2 ∷ 5 ∷ [])) (concat contents)))
unfolding mine pending new HashMap.get
deliver-reads_example =
    deliver-reads 7 deliveries pieces contents fresh (2 ∷ 5 ∷ []) all_quiet refl refl pieces-IsWhole
      (omega arith) sent

deliver-offers_example :
    (pending 7 (deliver 7 deliveries fresh).0, (deliver 7 deliveries fresh).1)
    ≡ offers (mine 7 deliveries) (pending 7 fresh)
deliver-offers_example = deliver-offers 7 deliveries fresh all_quiet

few_arrivals : fresh.by_arrival.counter + 1 < u64_mod
unfolding new
few_arrivals = omega arith

decode-IsBounded_example : IsBounded after_second
unfolding new
decode-IsBounded_example = decode-IsBounded (at 0) (datagram second) fresh (omega arith)

push-offer_example :
    ((push (since_epoch 5) other.header (piece other) after_second).1
      ≡ (offer 2 (piece other) (pending 9 after_second)).1)
    × (pending 9 (push (since_epoch 5) other.header (piece other) after_second).0
        ≡ (offer 2 (piece other) (pending 9 after_second)).0)
    × (pending 7 (push (since_epoch 5) other.header (piece other) after_second).0
        ≡ pending 7 after_second)
unfolding duration_since_epoch
push-offer_example =
    push-offer (since_epoch 5) other.header (piece other) after_second {d = 5} 7 refl (omega arith)

get-chunk_example :
    Header.get (Header.chunk 258 3 9 (77 ∷ []))
    ≡ ok (record { id = 258; seq_num = 3; seq_count = 9 }, 77 ∷ [])
get-chunk_example = get-chunk 258 3 9 (77 ∷ []) (omega arith) (omega arith)

after_second-Inv : Inv after_second
after_second-Inv =
    decode-Inv (at 0) (datagram second) fresh (new-Inv default_config metrics) few_arrivals

abbrev waiting_chunks : Chunks.Chunks
waiting_chunks = record { expected_total = 2; inner = (1, 4 ∷ 5 ∷ []) ∷ [] }

abbrev arrival : UniqueTimestamp
arrival = record { arrival = 10_000_000_000; counter = 0 }

abbrev limit : UniqueTimestamp
limit = record { arrival = 15_000_000_000; counter = 0 }

gc-expires_example :
    HashMap.get 7 (gc (since_epoch 20_000_000_000) after_second).0.by_id.chunks
    ≡ (if timestamp_lt arrival limit then none else some (waiting_chunks, arrival))
unfolding new decode decode_chunked is_chunk peek_magic_bytes gc clear_if_full remove_expired since
    minus duration_since_epoch Header.get Header.read_fields Header.from_be Header.chunk
    Header.to_be dispatch push remove_all begin admit ts join HashMap.get HashMap.insert
    HashMap.remove BTreeMap.range_below BTreeMap.insert BTreeMap.remove BTreeMap.get Chunks.new
    Chunks.insert Chunks.is_complete
gc-expires_example =
    gc-expires after_second limit 7 waiting_chunks arrival after_second-Inv refl
      (since_epoch 20_000_000_000) (omega arith) refl

abbrev datagrams : List (Readings × Bytes)
datagrams = map (λ d. (d.now, datagram d)) deliveries

reachable-Inv_example :
    Inv (decode_all datagrams (new default_config metrics))
    × IsBounded (decode_all datagrams (new default_config metrics))
reachable-Inv_example = reachable-Inv default_config metrics datagrams (omega arith)
