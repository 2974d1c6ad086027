-- ===== src/Receive/Gelf/Refused.antt =====
-- A datagram that the decoder of sqelf/src/receive.rs refuses changes none of its messages.
use seq_input_gelf.Common.{
  ◌≡◌, refl, sym, ap, ◌∙◌, true, Option, Bool-cases, Option-cases, inl, inr, ltb, ◌&&◌, ◌==◌,
  nat_eq,
}
use seq_input_gelf.Common.HashMap
use seq_input_gelf.Receive.Outcome.{Bytes, Error, Result, ok, err, Result-cases}
use seq_input_gelf.Receive.Time.{SystemTime, duration_since_epoch}
use seq_input_gelf.Receive.Header.{ChunkHeader}
use seq_input_gelf.Receive.Header
use seq_input_gelf.Receive.Message.{Message, new_single, detect_bytes}
use seq_input_gelf.Receive.Chunks.{Chunk}
use seq_input_gelf.Receive.Gelf.{
  Gelf, Readings, gc, push, dispatch, chunked, decode, is_chunk, count_chunk,
}
use seq_input_gelf.Receive.Gelf.Cases.{begin_ok, begin_err}

-- An error leaves the state `g`.
abbrev Keeps : Gelf → Gelf × Result (Option Message) → Type 0
Keeps g r = (e : Error) → r.1 ≡ err e → r.0 ≡ g

push-Keeps : (now : SystemTime) (h : ChunkHeader) (c : Chunk) (g : Gelf) → Keeps g (push now h c g)
unfolding push
push-Keeps now h c g = elim (Option-cases (HashMap.get h.id g.by_id.chunks)) [
  | inl e ↦ elim (Result-cases (duration_since_epoch now)) [
    | inl (d, clock) ↦ rw (e, push, begin_ok now h c g clock) (λ x bad. absurd (cc (bad)))
    | inr (x, clock) ↦ rw (e, push, begin_err now h c g clock) (λ y bad. refl)
  ]
  | inr ((cs, t), e) ↦ elim (Bool-cases (cs.expected_total == h.seq_count)) [
    | inl same ↦ rw (e, push) (rw same (λ x bad. absurd (cc (bad))))
    | inr other ↦ rw (e, push) (rw other (λ x bad. refl))
  ]
]

dispatch-Keeps :
    (now : SystemTime) (h : ChunkHeader) (src : Bytes) (g : Gelf) → Keeps g (dispatch now h src g)
unfolding dispatch
dispatch-Keeps now h src g = elim (Bool-cases (h.seq_num == 0 && h.seq_count == 1)) [
  | inl lone ↦ rw lone (λ x bad. refl)
  | inr several ↦ elim (Bool-cases (ltb g.config.max_chunks_per_message h.seq_count)) [
    | inl many ↦ rw (several, many) (λ x bad. refl)
    | inr few ↦ rw (several, few) (push-Keeps now h _ g)
  ]
]

chunked-Keeps :
    (now : Readings) (src : Bytes) (g : Gelf) → Keeps (gc now.at_gc g).0 (chunked now src g)
unfolding chunked
chunked-Keeps now src g = elim (Result-cases (gc now.at_gc g).1) [
  | inr (_, e) ↦ rw (e, chunked) (λ x bad. refl)
  | inl (_, e) ↦ elim (Result-cases (Header.get src)) [
    | inr (_, bad) ↦ rw (e, chunked, bad) (λ x worse. refl)
    | inl ((h, rest), good) ↦
        rw (e, chunked, good) (dispatch-Keeps now.at_push h rest (gc now.at_gc g).0)
  ]
]

-- A datagram that is answered with an error is a chunk, and leaves the decoder as `gc` and the count
-- of chunks leave it: no message gains or loses a chunk by it, and no arrival is given out.
pub decode-refuses :
    (now : Readings) (src : Bytes) (g g' : Gelf) (e : Error)
    → decode now src g ≡ (g', err e)
    → (is_chunk src ≡ true) × (g' ≡ (gc now.at_gc (record g { metrics = count_chunk g.metrics })).0)
unfolding decode
decode-refuses now src g g' e h = elim (Bool-cases (is_chunk src)) [
  | inl chunk ↦
      let counted = record g { metrics = count_chunk g.metrics } in
      let same : decode now src g ≡ chunked now src counted = rw (chunk, decode) refl in
      (
        chunk,
        ap (λ (r : Gelf × Result (Option Message)). r.0) (sym h ∙ same)
            ∙ chunked-Keeps now src counted e
                (ap (λ (r : Gelf × Result (Option Message)). r.1) (sym same ∙ h)),
      )
  | inr plain ↦
      let whole : (decode now src g).1 ≡ ok (new_single (detect_bytes src) src) =
        rw (plain, decode) refl in
      absurd (cc (whole, ap (λ (r : Gelf × Result (Option Message)). r.1) h))
]
