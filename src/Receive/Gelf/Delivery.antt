-- ===== src/Receive/Gelf/Delivery.antt =====
-- Whole messages through the decoder: chunks of many messages, interleaved in any way.
use seq_input_gelf.Common.{
  ℕ, ◌-◌, ◌<◌, ◌≡◌, ◌≢◌, refl, sym, ap, ◌∙◌, List, [], ◌∷◌, Option, none, arith, map, ◌==◌,
  Bool-cases, inl, inr, if◌then◌else◌,
}
use seq_input_gelf.Receive.Outcome.{Result}
use seq_input_gelf.Receive.Message.{Message, chunked}
use seq_input_gelf.Receive.Chunks.{Chunk}
use seq_input_gelf.Receive.Gelf.Slot.{Slot, pending, offer, push-Refines}
use seq_input_gelf.Receive.Gelf.Assembly.{offers, payload, in_order, answers, IsWhole, offers_whole}
use seq_input_gelf.Receive.Gelf.Quiet.{Delivery, datagram, piece, IsQuiet, decode_quiet}
use seq_input_gelf.Receive.Gelf.{Gelf, decode, count_chunk}

-- The decoder after the deliveries, and the results of those for one message.
unfoldable pub deliver : ℕ → List Delivery → Gelf → Gelf × List (Result (Option Message))
deliver id [] g = (g, [])
deliver id (d ∷ ds) g =
    let r = decode d.now (datagram d) g in
    let rest = deliver id ds r.0 in (rest.0, if d.header.id == id then r.1 ∷ rest.1 else rest.1)

-- The chunks of one message among the deliveries, in the order in which they come.
unfoldable pub mine : ℕ → List Delivery → List (ℕ × Chunk)
mine id [] = []
mine id (d ∷ ds) =
    if d.header.id == id then (d.header.seq_count, piece d) ∷ mine id ds else mine id ds

-- No delivery meets a full decoder, an expired message or a clock before the epoch.
unfoldable pub AllQuiet : List Delivery → Gelf → Type 0
AllQuiet [] g = Unit
AllQuiet (d ∷ ds) g = IsQuiet d g × AllQuiet ds (decode d.now (datagram d) g).0

step_mine :
    (d : Delivery) (g : Gelf)
    → IsQuiet d g
    → ((decode d.now (datagram d) g).1
        ≡ (offer d.header.seq_count (piece d) (pending d.header.id g)).1)
      × (pending d.header.id (decode d.now (datagram d) g).0
          ≡ (offer d.header.seq_count (piece d) (pending d.header.id g)).0)
      × ((j : ℕ) → d.header.id ≢ j → pending j (decode d.now (datagram d) g).0 ≡ pending j g)
unfolding pending
step_mine d g q = rw (decode_quiet d g q) (
    push-Refines d.now.at_push d.header (piece d) (record g { metrics = count_chunk g.metrics })
      q.clock)

-- As long as no delivery meets a full decoder, an expired message or a clock before the epoch,
-- what the decoder answers to the chunks of one message, and what it keeps of it, is what a slot
-- of its own would, whatever chunks of other messages come in between.
pub deliver-offers :
    (id : ℕ) (ds : List Delivery) (g : Gelf)
    → AllQuiet ds g
    → (pending id (deliver id ds g).0, (deliver id ds g).1) ≡ offers (mine id ds) (pending id g)
unfolding deliver mine AllQuiet offers
deliver-offers id [] g q = refl
deliver-offers id (d ∷ ds) g (q, qs) =
    let rest = deliver-offers id ds (decode d.now (datagram d) g).0 qs in
    elim (Bool-cases (d.header.id == id)) [
      | inl same ↦
          let at : d.header.id ≡ id = ground arith in
          let slot_at = λ (j : ℕ). offer d.header.seq_count (piece d) (pending j g) in
          let answer = (step_mine d g q).0 ∙ ap (λ (j : ℕ). (slot_at j).1) at in
          let slot =
            sym (ap (λ (j : ℕ). pending j (decode d.now (datagram d) g).0) at)
            ∙ (step_mine d g q).1
            ∙ ap (λ (j : ℕ). (slot_at j).0) at in
          let later = rest ∙ ap (offers (mine id ds)) slot in
          rw same (
            ap
              (λ (r : Slot × List (Result (Option Message))).
                (r.0, (decode d.now (datagram d) g).1 ∷ r.1))
              later
            ∙ ap
                (λ (a : Result (Option Message)). (
                  (offers (mine id ds) (slot_at id).0).0,
                  a ∷ (offers (mine id ds) (slot_at id).0).1,
                ))
                answer)
      | inr other ↦
          let ne : d.header.id ≢ id = ground arith in
          rw other (rest ∙ ap (offers (mine id ds)) ((step_mine d g q).2 id ne))
    ]

-- All the chunks of one message, of two or more, delivered in any order and between the chunks of
-- other messages, while the decoder is not full, no message expires and the clock is past the epoch:
-- the decoder answers nothing to the first ones, and to the last one the message, with the data in
-- the order of the chunks' numbers; it keeps nothing of the message.
pub deliver_whole :
    (id n : ℕ) (ds : List Delivery) (cs : List Chunk) (g : Gelf)
    → AllQuiet ds g
    → pending id g ≡ none
    → mine id ds ≡ map (λ c. (n, c)) cs
    → IsWhole n cs
    → 1 < n
    → (pending id (deliver id ds g).0 ≡ none)
      × ((deliver id ds g).1 ≡ answers (n - 1) (chunked (in_order n 0 (λ i. payload i cs))))
deliver_whole id n ds cs g quiet new these whole several =
    let e =
      deliver-offers id ds g quiet
      ∙ ap (offers (mine id ds)) new
      ∙ ap (λ (l : List (ℕ × Chunk)). offers l none) these
      ∙ offers_whole n cs several whole in
    (
      ap (λ (r : Slot × List (Result (Option Message))). r.0) e,
      ap (λ (r : Slot × List (Result (Option Message))). r.1) e,
    )
