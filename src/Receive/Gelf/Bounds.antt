-- ===== src/Receive/Gelf/Bounds.antt =====
-- The memory that the decoder holds is bounded: at most `incomplete_capacity` messages wait.
use Prim.Native.Nat.{max}
use seq_input_gelf.Common.{ℕ, ◌≤◌, ◌+◌, arith, length, List, [], ◌∷◌, nat_eq, inl, inr}
use seq_input_gelf.Common.HashMap
use seq_input_gelf.Common.BTreeMap
use seq_input_gelf.Receive.Chunks
use seq_input_gelf.Receive.Gelf.Cases.{
  stamp, begin_ok, begin_err, gc_cases, push_cases, decode_cases,
}
use seq_input_gelf.Receive.Outcome.{Bytes, Result-cases}
use seq_input_gelf.Receive.Time.{SystemTime, UniqueTimestamp, duration_since_epoch, timestamp_ord}
use seq_input_gelf.Receive.Header.{ChunkHeader}
use seq_input_gelf.Receive.Chunks.{Chunk, Chunks}
use seq_input_gelf.Receive.Gelf.{
  Gelf, Readings, clear_if_full, remove_all, remove_expired, gc, begin, join, decode, admit,
}

-- The number of incomplete messages.
abbrev pub waiting : Gelf → ℕ
waiting g = length g.by_id.chunks

abbrev pub IsBounded : Gelf → Type 0
IsBounded g = waiting g ≤ max g.config.incomplete_capacity 1

-- What `gc` leaves: room for one more message, or nothing.
abbrev HasRoom : Gelf → Type 0
HasRoom g = waiting g + 1 ≤ max g.config.incomplete_capacity 1

clear_if_full-HasRoom : (g : Gelf) → HasRoom (clear_if_full g)
unfolding clear_if_full
clear_if_full-HasRoom g = ground arith

length-remove_all :
    (l : List (UniqueTimestamp × ℕ)) (ids : List (ℕ × (Chunks × UniqueTimestamp)))
    (arrivals : List (UniqueTimestamp × ℕ))
    → length (remove_all l ids arrivals).0 ≤ length ids
unfolding remove_all
length-remove_all [] ids arrivals = omega arith
length-remove_all ((t, i) ∷ l) ids arrivals = omega (
  arith,
  length-remove_all l (HashMap.remove i ids) (BTreeMap.remove t arrivals),
  HashMap.length-remove-le i ids,
)

remove_expired-waiting :
    (limit : UniqueTimestamp) (g : Gelf) → waiting (remove_expired limit g) ≤ waiting g
unfolding remove_expired
remove_expired-waiting limit g =
    length-remove_all (BTreeMap.range_below limit g.by_arrival.chunks) g.by_id.chunks
      g.by_arrival.chunks

remove_expired-HasRoom :
    (limit : UniqueTimestamp) (g : Gelf) → HasRoom g → HasRoom (remove_expired limit g)
unfolding remove_expired
remove_expired-HasRoom limit g room = omega (arith, remove_expired-waiting limit g)

gc-HasRoom : (now : SystemTime) (g : Gelf) → HasRoom (gc now g).0
gc-HasRoom now g =
    gc_cases HasRoom now g (clear_if_full-HasRoom g)
      (λ limit. remove_expired-HasRoom limit _ (clear_if_full-HasRoom g))

begin-IsBounded :
    (now : SystemTime) (h : ChunkHeader) (c : Chunk) (g : Gelf)
    → HasRoom g
    → IsBounded (begin now h c g).0
unfolding admit
begin-IsBounded now h c g room = elim (Result-cases (duration_since_epoch now)) [
  | inr (_, e) ↦ rw (begin_err now h c g e) (omega arith)
  | inl (d, e) ↦ rw (begin_ok now h c g e) (
      omega
        (arith, HashMap.length-insert-le h.id (Chunks.new h.seq_count c, stamp d g) g.by_id.chunks))
]

join-IsBounded :
    (h : ChunkHeader) (c : Chunk) (cs : Chunks) (t : UniqueTimestamp) (g : Gelf)
    → HasRoom g
    → IsBounded (join h c cs t g).0
unfolding join
join-IsBounded h c cs t g room = ground (
  arith,
  HashMap.length-insert-le h.id (Chunks.insert c cs, t) g.by_id.chunks,
  HashMap.length-remove-le h.id g.by_id.chunks,
)

-- If at most `incomplete_capacity` messages wait for their chunks, or one where the capacity is 0,
-- then so it is after any call of the decoder, whatever the datagram and the clock.
pub decode-IsBounded :
    (now : Readings) (src : Bytes) (g : Gelf) → IsBounded g → IsBounded (decode now src g).0
decode-IsBounded now src g b =
    decode_cases IsBounded HasRoom now src g (λ m. b) (λ m. gc-HasRoom now.at_gc _)
      (λ g' q. omega arith)
      λ h bytes g' q _.
        push_cases IsBounded now.at_push h _ g' (omega arith)
          (λ _. begin-IsBounded now.at_push h _ g' q) (λ cs t _ _. join-IsBounded h _ cs t g' q)
