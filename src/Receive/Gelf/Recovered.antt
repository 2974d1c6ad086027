-- ===== src/Receive/Gelf/Recovered.antt =====
-- A message cut into chunks by a client, received in any order, and read back from its reader.
use seq_input_gelf.Common.{
  ℕ, suc, ◌+◌, ◌-◌, ◌<◌, ◌≡◌, refl, ap, ◌∙◌, List, [], ◌∷◌, Option, none, some, arith, map, length,
  take, get_elem?,
}
use seq_input_gelf.Receive.Outcome.{Bytes}
use seq_input_gelf.Receive.Message.{chunked}
use seq_input_gelf.Receive.Chunks.{Chunk}
use seq_input_gelf.Receive.Gelf.Slot.{pending}
use seq_input_gelf.Receive.Gelf.Assembly.{payload, in_order, answers, IsWhole}
use seq_input_gelf.Receive.Gelf.Quiet.{Delivery}
use seq_input_gelf.Receive.Gelf.Delivery.{deliver, mine, AllQuiet, deliver_whole}
use seq_input_gelf.Receive.Gelf.{Gelf}
use seq_input_gelf.Receive.Reader.{reads, open_msg, done}
use seq_input_gelf.Receive.Reader.Stream.{concat, body}
use seq_input_gelf.Receive.Reader.Body.{reads-body, sum}

in_order-pieces :
    (bs : List Bytes) (i : ℕ) (f : ℕ → Option Bytes)
    → ((j : ℕ) → f (j + i) ≡ get_elem? bs j)
    → in_order (length bs) i f ≡ bs
unfolding in_order
in_order-pieces [] i f h = refl
in_order-pieces (b ∷ bs) i f h =
    let at : f i ≡ some b = ap f (omega arith) ∙ h 0 in
    let rest = in_order-pieces bs (suc i) f (λ j. ap f (omega arith) ∙ h (suc j)) in cc (at, rest)

-- The pieces of a message, two or more, are sent as chunks, each piece under its number, and delivered
-- in any order between the chunks of other messages, to a decoder that knows nothing of the message,
-- is not full and lets none expire, while the clock is past the epoch. The last chunk is answered with
-- a message, the others with nothing, and reads of the message, whatever the lengths of their
-- buffers, give the bytes of the pieces, one behind the other, as far as the buffers reach.
pub deliver-reads :
    (id : ℕ) (ds : List Delivery) (cs : List Chunk) (pieces : List Bytes) (g : Gelf) (ns : List ℕ)
    → AllQuiet ds g
    → pending id g ≡ none
    → mine id ds ≡ map (λ c. (length pieces, c)) cs
    → IsWhole (length pieces) cs
    → 1 < length pieces
    → ((i : ℕ) → payload i cs ≡ get_elem? pieces i)
    → ((deliver id ds g).1 ≡ answers (length pieces - 1) (chunked pieces))
      × (reads ns (open_msg (chunked pieces)) ≡ done (take (sum ns) (concat pieces)))
unfolding body
deliver-reads id ds cs pieces g ns quiet new these whole several sent =
    let e : in_order (length pieces) 0 (λ i. payload i cs) ≡ pieces =
      in_order-pieces pieces 0 (λ i. payload i cs)
        (λ j. ap (λ (i : ℕ). payload i cs) (omega arith) ∙ sent j) in
    (
      (deliver_whole id (length pieces) ds cs g quiet new these whole several).1
          ∙ ap (λ (bs : List Bytes). answers (length pieces - 1) (chunked bs)) e,
      reads-body (chunked pieces) ns,
    )
