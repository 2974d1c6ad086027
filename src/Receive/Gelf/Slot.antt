-- ===== src/Receive/Gelf/Slot.antt =====
-- The decoder seen as one slot for each message id: what `push` promises of a slot, with no maps,
-- no arrivals and no metrics.
use seq_input_gelf.Common.{
  ℕ, ◌≡◌, ◌≢◌, refl, Option, none, some, arith, nat_eq, ◌==◌, Bool-cases, Option-cases, inl, inr,
  if◌then◌else◌,
}
use seq_input_gelf.Common.HashMap
use seq_input_gelf.Receive.Outcome.{Error, Result, ok, err}
use seq_input_gelf.Receive.Time.{SystemTime, UniqueTimestamp, timestamp_ord, duration_since_epoch}
use seq_input_gelf.Receive.Header.{ChunkHeader}
use seq_input_gelf.Receive.Message.{Message, new_chunked}
use seq_input_gelf.Receive.Chunks.{Chunk, Chunks, into_values}
use seq_input_gelf.Receive.Chunks
use seq_input_gelf.Receive.Gelf.Cases.{stamp, begin_ok}
use seq_input_gelf.Receive.Gelf.{Gelf, admit, join, push}

-- The chunks of a message that have arrived, if any have.
abbrev pub Slot : Type 0
Slot = Option Chunks

unfoldable pub pending : ℕ → Gelf → Slot
pending id g = elim (HashMap.get id g.by_id.chunks) [ none ↦ none | some v ↦ some v.0 ]

-- A chunk joins the chunks of its message; the last one takes the message out.
unfoldable pub add_chunk : Chunk → Chunks → Slot × Option Message
add_chunk c cs =
    let cs' = Chunks.insert c cs in
    if Chunks.is_complete cs' then (none, new_chunked (into_values cs')) else (some cs', none)

-- What a slot does with a chunk that says its message has `count` of them.
unfoldable pub offer : ℕ → Chunk → Slot → Slot × Result (Option Message)
offer count c none = (some (Chunks.new count c), ok none)
offer count c (some cs) =
    if cs.expected_total == count
    then (let r = add_chunk c cs in (r.0, ok r.1))
    else (some cs, err (Error.inconsistent_total count cs.expected_total))

module _ (now : SystemTime) (h : ChunkHeader) (c : Chunk) (g : Gelf) where
  -- The result of `push` and the new content of the slot, and that no other slot changes.
  abbrev pub Refines : Gelf × Result (Option Message) → Type 0
  Refines r =
      (r.1 ≡ (offer h.seq_count c (pending h.id g)).1)
      × (pending h.id r.0 ≡ (offer h.seq_count c (pending h.id g)).0)
      × ((j : ℕ) → h.id ≢ j → pending j r.0 ≡ pending j g)

  push_vacant :
      {d : ℕ}
      → duration_since_epoch now ≡ ok d
      → HashMap.get h.id g.by_id.chunks ≡ none
      → Refines (push now h c g)
  unfolding push pending offer admit
  push_vacant {d} clock new =
      rw (new, push, offer, begin_ok now h c g clock)
        (
          refl,
          ground (
            arith,
            HashMap.get-insert h.id h.id (Chunks.new h.seq_count c, stamp d g) g.by_id.chunks,
          ),
          λ j ne. ground (
            arith,
            HashMap.get-insert h.id j (Chunks.new h.seq_count c, stamp d g) g.by_id.chunks,
          ),
        )

  push_occupied :
      {cs : Chunks} {t : UniqueTimestamp}
      → HashMap.get h.id g.by_id.chunks ≡ some (cs, t)
      → Refines (push now h c g)
  unfolding push pending offer join add_chunk
  push_occupied {cs} {t} at = elim (Bool-cases (cs.expected_total == h.seq_count)) [
    | inr other ↦ rw (at, push, offer) (rw other (refl, rw (at, pending), λ j ne. refl))
    | inl same ↦ elim (Bool-cases (Chunks.is_complete (Chunks.insert c cs))) [
      | inl whole ↦
          rw (at, push, offer)
            (rw (same, whole)
              (
                refl,
                ground (arith, HashMap.get-remove h.id h.id g.by_id.chunks),
                λ j ne. ground (arith, HashMap.get-remove h.id j g.by_id.chunks),
              ))
      | inr part ↦
          rw (at, push, offer)
            (rw (same, part)
              (
                refl,
                ground (arith, HashMap.get-insert h.id h.id (Chunks.insert c cs, t) g.by_id.chunks),
                λ j ne.
                    ground
                      (arith, HashMap.get-insert h.id j (Chunks.insert c cs, t) g.by_id.chunks),
              ))
    ]
  ]

  pub push-Refines : {d : ℕ} → duration_since_epoch now ≡ ok d → Refines (push now h c g)
  push-Refines clock = elim (Option-cases (HashMap.get h.id g.by_id.chunks)) [
    | inl new ↦ push_vacant clock new
    | inr ((cs, t), at) ↦ push_occupied at
  ]

  -- While the clock is past the epoch, `push` answers as the slot of the chunk's id does, leaves in
  -- that slot what the slot would hold, and leaves the slot of any other id as it is.
  pub push-offer :
      {d : ℕ} (j : ℕ)
      → duration_since_epoch now ≡ ok d
      → h.id ≢ j
      → ((push now h c g).1 ≡ (offer h.seq_count c (pending h.id g)).1)
        × (pending h.id (push now h c g).0 ≡ (offer h.seq_count c (pending h.id g)).0)
        × (pending j (push now h c g).0 ≡ pending j g)
  push-offer j clock ne = let r = push-Refines clock in (r.0, r.1, r.2 j ne)
