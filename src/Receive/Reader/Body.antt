-- ===== src/Receive/Reader/Body.antt =====
-- The reader of a message against the message's bytes: no read panics, and reads of any sizes give
-- the bytes in order.
use seq_input_gelf.Common.{
  ℕ, zero, suc, ◌+◌, ◌≤◌, ◌≡◌, refl, sym, ap, ◌∙◌, min, List, [], ◌∷◌, arith, length, length-drop,
  take, drop, Bool-cases, inl, inr, drop-drop, take-add, take_all, drop_all, leb,
}
use seq_input_gelf.Receive.Outcome.{Bytes}
use seq_input_gelf.Receive.Message.{Message, single, chunked}
use seq_input_gelf.Receive.Reader.{ChunkRead, done, Place, enough, read_msg, read, reads, open_msg}
use seq_input_gelf.Receive.Reader.Stream.{body, rest_of, InChunk, InChunk-start, loop-Reads}

-- What a place in a message has left.
abbrev pub left_of : Message → Place → Bytes
left_of (single c bytes) p = drop p.cursor bytes
left_of (chunked chunks) p = rest_of chunks p

abbrev pub InMessage : Message → Place → Type 0
InMessage (single c bytes) p = p.cursor ≤ length bytes
InMessage (chunked chunks) p = InChunk chunks p

abbrev ReadsFrom : Message → ℕ → Place → Type 0
ReadsFrom m n p =
    (q : Place) × (read_msg m n p ≡ done (take n (left_of m p), q))
    × (left_of m q ≡ drop n (left_of m p))
    × InMessage m q

take-min : {A : Type 0} (n : ℕ) (xs : List A) → take (min (length xs) n) xs ≡ take n xs
take-min n xs = elim (Bool-cases (leb (length xs) n)) [
  | inl fits ↦
      let m : min (length xs) n ≡ length xs = ground arith in
      rw (m, take_all (length xs) xs (omega arith)) (sym (take_all n xs (ground arith)))
  | inr over ↦ let m : min (length xs) n ≡ n = ground arith in rw m
]

drop-min : {A : Type 0} (n : ℕ) (xs : List A) → drop (min (length xs) n) xs ≡ drop n xs
drop-min n xs = elim (Bool-cases (leb (length xs) n)) [
  | inl fits ↦
      let m : min (length xs) n ≡ length xs = ground arith in
      rw (m, drop_all (length xs) xs (omega arith)) (sym (drop_all n xs (ground arith)))
  | inr over ↦ let m : min (length xs) n ≡ n = ground arith in rw m
]

read_msg_lem : (m : Message) (n : ℕ) (p : Place) → InMessage m p → ReadsFrom m n p
unfolding read_msg
read_msg_lem (chunked chunks) n p v = loop-Reads chunks (enough chunks) n p [] (omega arith) v
read_msg_lem (single c bytes) zero p v = (p, refl, refl, v)
read_msg_lem (single c bytes) (suc n) p v = (
  record p { cursor = p.cursor + min (length (drop p.cursor bytes)) (suc n) },
  ground (arith, take-min (suc n) (drop p.cursor bytes)),
  sym (drop-drop p.cursor _ bytes) ∙ drop-min (suc n) (drop p.cursor bytes),
  omega (arith, length-drop p.cursor bytes),
)

-- The reader as a stream: what it has left, and that its place lies in its message.
abbrev pub remaining : ChunkRead → Bytes
remaining r = left_of r.msg (record { chunk = r.chunk; cursor = r.cursor })

abbrev pub IsValid : ChunkRead → Type 0
IsValid r = InMessage r.msg (record { chunk = r.chunk; cursor = r.cursor })

-- A read into a buffer of `n` bytes never panics nor loops on: it gives the next `n` bytes that are
-- left, or all of them if there are fewer, and leaves the rest, in a valid reader of the same
-- message.
pub read_lem :
    (n : ℕ) (r : ChunkRead)
    → IsValid r
    → (r' : ChunkRead) × (read n r ≡ done (take n (remaining r), r'))
      × (remaining r' ≡ drop n (remaining r))
      × IsValid r'
      × (r'.msg ≡ r.msg)
unfolding read
read_lem n r v =
    let (q, ran, left, w) =
      read_msg_lem r.msg n (record { chunk = r.chunk; cursor = r.cursor }) v in
    (record r { chunk = q.chunk; cursor = q.cursor }, rw (ran, read), left, w, refl)

unfoldable pub sum : List ℕ → ℕ
sum [] = 0
sum (n ∷ ns) = n + sum ns

reads_lem :
    (ns : List ℕ) (r : ChunkRead) → IsValid r → reads ns r ≡ done (take (sum ns) (remaining r))
unfolding reads sum
reads_lem [] r v = refl
reads_lem (n ∷ ns) r v =
    let (r', ran, left, w, _) = read_lem n r v in
    rw (ran, reads)
      (rw (reads_lem ns r' w, left) (ap done (sym (take-add n (sum ns) (remaining r)))))

pub open_msg-IsValid : (m : Message) → IsValid (open_msg m)
unfolding open_msg
open_msg-IsValid (single c bytes) = omega arith
open_msg-IsValid (chunked chunks) = InChunk-start chunks 0

-- Reads of any sizes from the start of a message give the first bytes of its body, as many as their
-- buffers hold together: the chunks one behind the other, none lost, none twice.
pub reads-body : (m : Message) (ns : List ℕ) → reads ns (open_msg m) ≡ done (take (sum ns) (body m))
unfolding open_msg body
reads-body (single c bytes) ns =
    reads_lem ns (open_msg (single c bytes)) (open_msg-IsValid (single c bytes))
reads-body (chunked chunks) ns =
    reads_lem ns (open_msg (chunked chunks)) (open_msg-IsValid (chunked chunks))
