-- ===== src/Receive/Gelf/Cases.antt =====
-- Rules for the decoder's operations: to show a fact of the state after a call, show it at the end
-- of each of its branches.
use seq_input_gelf.Common.{
  ℕ, ◌+◌, ◌%◌, ◌≡◌, ◌<◌, ◌≤◌, none, some, arith, Bool-cases, ltb, ◌&&◌, Option-cases, inl, inr,
  ◌==◌, nat_eq,
}
use seq_input_gelf.Common.HashMap
use seq_input_gelf.Receive.Outcome.{Bytes, Error, ok, err, Result-cases}
use seq_input_gelf.Receive.Time.{
  SystemTime, UniqueTimestamp, since, from_millis, duration_since_epoch,
}
use seq_input_gelf.Receive.Header.{ChunkHeader}
use seq_input_gelf.Receive.Header
use seq_input_gelf.Receive.Chunks.{Chunk, Chunks}
use seq_input_gelf.Receive.Gelf.{
  Gelf, Metrics, Readings, clear_if_full, remove_expired, gc, begin, join, push, dispatch, chunked,
  decode, admit, u64_mod, ByArrival, is_chunk, count_chunk,
}

-- The chunks that reach `push`: numbered below their count, of more than one, and within the limit.
abbrev pub IsSeveral : Gelf → ChunkHeader → Type 0
IsSeveral g h =
    (h.seq_num < h.seq_count) × (1 < h.seq_count) × (h.seq_count ≤ g.config.max_chunks_per_message)

-- The header parser rejects a sequence number that is not below the count.
pub get-seq_num :
    (src : Bytes) (h : ChunkHeader) (rest : Bytes)
    → Header.get src ≡ ok (h, rest)
    → h.seq_num < h.seq_count
unfolding Header.get Header.read_fields
get-seq_num src h rest e = ground arith

-- The arrival key and counter that a message gets at a reading of the clock.
abbrev pub stamp : ℕ → Gelf → UniqueTimestamp
stamp d g = record { arrival = d; counter = g.by_arrival.counter }

abbrev pub counted : Gelf → ByArrival
counted g = record g.by_arrival { counter = (g.by_arrival.counter + 1) % u64_mod }

pub begin_ok :
    (now : SystemTime) (h : ChunkHeader) (c : Chunk) (g : Gelf) {d : ℕ}
    → duration_since_epoch now ≡ ok d
    → begin now h c g ≡ (admit (stamp d g) (counted g) h c g, ok none)
unfolding begin
begin_ok now h c g e = ground arith

-- A clock before the epoch changes nothing.
pub begin_err :
    (now : SystemTime) (h : ChunkHeader) (c : Chunk) (g : Gelf) {e : Error}
    → duration_since_epoch now ≡ err e
    → begin now h c g ≡ (g, err e)
unfolding begin
begin_err now h c g e = ground arith

module _ (P : Gelf → Type 0) where
  pub gc_cases :
      (now : SystemTime) (g : Gelf)
      → P (clear_if_full g)
      → ((limit : UniqueTimestamp) → P (remove_expired limit (clear_if_full g)))
      → P (gc now g).0
  unfolding gc
  gc_cases now g failed swept =
      elim (Result-cases (since now (from_millis g.config.incomplete_timeout_ms))) [
        | inl (limit, e) ↦ rw (e, gc) (swept limit)
        | inr (_, e) ↦ rw (e, gc) failed
      ]

  pub push_cases :
      (now : SystemTime) (h : ChunkHeader) (c : Chunk) (g : Gelf)
      → P g
      → (HashMap.get h.id g.by_id.chunks ≡ none → P (begin now h c g).0)
      → ((cs : Chunks) (t : UniqueTimestamp)
          → HashMap.get h.id g.by_id.chunks ≡ some (cs, t)
          → cs.expected_total ≡ h.seq_count
          → P (join h c cs t g).0)
      → P (push now h c g).0
  unfolding push
  push_cases now h c g kept vacant occupied =
      elim (Option-cases (HashMap.get h.id g.by_id.chunks)) [
        | inl e ↦ rw (e, push) (vacant e)
        | inr ((cs, t), e) ↦ elim (Bool-cases (cs.expected_total == h.seq_count)) [
          | inl same ↦ rw (e, push) (rw same (occupied cs t e (ground arith)))
          | inr other ↦ rw (e, push) (rw other kept)
        ]
      ]

  dispatch_cases :
      (now : SystemTime) (h : ChunkHeader) (src : Bytes) (g : Gelf)
      → h.seq_num < h.seq_count
      → P g
      → (IsSeveral g h → P (push now h (record { seq = h.seq_num; bytes = src }) g).0)
      → P (dispatch now h src g).0
  unfolding dispatch
  dispatch_cases now h src g inside kept pushed =
      elim (Bool-cases (h.seq_num == 0 && h.seq_count == 1)) [
        | inl lone ↦ rw lone kept
        | inr several ↦ elim (Bool-cases (ltb g.config.max_chunks_per_message h.seq_count)) [
          | inl many ↦ rw (several, many) kept
          | inr few ↦ rw (several, few) (pushed (inside, ground arith, ground arith))
        ]
      ]

-- `P` holds before a call, and `Q` between its cleaning and its push.
module _ (P Q : Gelf → Type 0) where
  pub decode_cases :
      (now : Readings) (src : Bytes) (g : Gelf)
      → ((m : Metrics) → P (record g { metrics = m }))
      → ((m : Metrics) → Q (gc now.at_gc (record g { metrics = m })).0)
      → ((g' : Gelf) → Q g' → P g')
      → ((h : ChunkHeader) (bytes : Bytes) (g' : Gelf)
          → Q g'
          → IsSeveral g' h
          → P (push now.at_push h (record { seq = h.seq_num; bytes = bytes }) g').0)
      → P (decode now src g).0
  unfolding decode chunked
  decode_cases now src g counted swept weaken pushed = elim (Bool-cases (is_chunk src)) [
    | inr plain ↦ rw plain (counted _)
    | inl chunk ↦ rw chunk (after_gc (record g { metrics = count_chunk g.metrics }) (swept _))
  ]
    where
      after_gc : (g' : Gelf) → Q (gc now.at_gc g').0 → P (chunked now src g').0
      after_gc g' q = elim (Result-cases (gc now.at_gc g').1) [
        | inr (_, e) ↦ rw (e, chunked) (weaken _ q)
        | inl (_, e) ↦ elim (Result-cases (Header.get src)) [
          | inr (_, bad) ↦ rw (e, chunked, bad) (weaken _ q)
          | inl ((h, rest), good) ↦
              rw (e, chunked, good)
                (dispatch_cases P now.at_push h rest _ (get-seq_num src h rest good) (weaken _ q)
                  (pushed h rest _ q))
        ]
      ]
