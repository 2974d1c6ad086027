-- ===== src/Receive/Gelf/Reachable.antt =====
-- The states that a decoder reaches from its start.
use seq_input_gelf.Common.{
  ℕ, ◌+◌, ◌≤◌, ◌<◌, ◌≡◌, List, [], ◌∷◌, arith, length, inl, inr, Bool-cases,
}
use seq_input_gelf.Receive.Outcome.{Bytes, Result-cases}
use seq_input_gelf.Receive.Time.{SystemTime, duration_since_epoch}
use seq_input_gelf.Receive.Header.{ChunkHeader}
use seq_input_gelf.Receive.Chunks
use seq_input_gelf.Receive.Chunks.{Chunk, Chunks}
use seq_input_gelf.Receive.Gelf.Bounds.{IsBounded, decode-IsBounded}
use seq_input_gelf.Receive.Gelf.Cases.{begin_ok, begin_err, push_cases, decode_cases}
use seq_input_gelf.Receive.Gelf.Invariant.{Inv, new-Inv}
use seq_input_gelf.Receive.Gelf.Preserved.{decode-Inv, counter-gc}
use seq_input_gelf.Receive.Gelf.{
  Config, Metrics, Gelf, Readings, new, admit, join, push, decode, u64_mod,
}

-- A decoder given datagrams one after the other.
unfoldable pub decode_all : List (Readings × Bytes) → Gelf → Gelf
decode_all [] g = g
decode_all ((now, src) ∷ ds) g = decode_all ds (decode now src g).0

module _ (n : ℕ) where
  HasCounted : Gelf → Type 0
  HasCounted g = g.by_arrival.counter ≤ n + 1

  push-HasCounted :
      (now : SystemTime) (h : ChunkHeader) (c : Chunk) (g : Gelf)
      → g.by_arrival.counter ≡ n
      → HasCounted (push now h c g).0
  unfolding HasCounted admit join
  push-HasCounted now h c g e =
      push_cases HasCounted now h c g (omega (arith, e))
        (λ new. elim (Result-cases (duration_since_epoch now)) [
          | inr (_, f) ↦ rw (begin_err now h c g f) (omega (arith, e))
          | inl (d, f) ↦ rw (begin_ok now h c g f) (omega (arith, e))
        ])
        λ cs t at same. elim (Bool-cases (Chunks.is_complete (Chunks.insert c cs))) [
          | inl whole ↦ rw (whole) (omega (arith, e))
          | inr part ↦ rw (part) (omega (arith, e))
        ]

counter-decode :
    (now : Readings) (src : Bytes) (g : Gelf)
    → (decode now src g).0.by_arrival.counter ≤ g.by_arrival.counter + 1
unfolding HasCounted
counter-decode now src g =
    decode_cases (HasCounted g.by_arrival.counter)
      (λ g'. g'.by_arrival.counter ≡ g.by_arrival.counter) now src g (λ m. omega arith)
      (λ m. counter-gc now.at_gc (record g { metrics = m })) (λ g' q. omega (arith, q))
      λ h bytes g' q several.
        push-HasCounted g.by_arrival.counter now.at_push h
          (record { seq = h.seq_num; bytes = bytes }) g' q

decode_all-Inv :
    (ds : List (Readings × Bytes)) (g : Gelf)
    → Inv g
    → IsBounded g
    → g.by_arrival.counter + length ds < u64_mod
    → Inv (decode_all ds g) × IsBounded (decode_all ds g)
unfolding decode_all
decode_all-Inv [] g v b h = (v, b)
decode_all-Inv ((now, src) ∷ ds) g v b h =
    decode_all-Inv ds (decode now src g).0 (decode-Inv now src g v (omega (arith, h)))
      (decode-IsBounded now src g b) (omega (arith, h, counter-decode now src g))

-- Whatever datagrams a new decoder is given, fewer than its counter of arrivals can hold, whatever
-- the clock reads and whatever goes wrong: its two indexes are in step, its messages are incomplete,
-- and no more of them wait than `incomplete_capacity`, or one where the capacity is 0.
pub reachable-Inv :
    (c : Config) (m : Metrics) (ds : List (Readings × Bytes))
    → length ds < u64_mod
    → Inv (decode_all ds (new c m)) × IsBounded (decode_all ds (new c m))
unfolding new
reachable-Inv c m ds h = decode_all-Inv ds (new c m) (new-Inv c m) (omega arith) (omega (arith, h))
