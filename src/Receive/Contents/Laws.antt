-- ===== src/Receive/Contents/Laws.antt =====
-- Reading a message to its end gives its body, for every size of the buffer.
use seq_input_gelf.Common.{
  ℕ, zero, suc, ◌<◌, ◌≡◌, refl, sym, ap, ◌∙◌, [], ◌∷◌, ◌++◌, arith, length, take, drop, length-take,
  take-append-drop, length-drop,
}
use seq_input_gelf.Receive.Outcome.{Bytes}
use seq_input_gelf.Receive.Message.{Message, compression, single, chunked}
use seq_input_gelf.Receive.Reader.{ChunkRead, done, read, open_msg}
use seq_input_gelf.Receive.Reader.Stream.{body}
use seq_input_gelf.Receive.Reader.Body.{IsValid, remaining, read_lem, open_msg-IsValid}
use seq_input_gelf.Receive.Contents.{Inflate, read_to_end, enough, inflate, contents}

-- One more round, by what the read gave.
round_lem :
    (fuel n : ℕ) (r r' : ChunkRead) (bs rest : Bytes)
    → read n r ≡ done (bs, r')
    → (0 < length bs → read_to_end fuel n r' ≡ done rest)
    → (length bs ≡ 0 → rest ≡ [])
    → read_to_end (suc fuel) n r ≡ done (bs ++ rest)
unfolding read_to_end
round_lem fuel n r r' [] rest h more last = rw (h, read_to_end) (ap done (sym (last refl)))
round_lem fuel n r r' (b ∷ bs) rest h more last =
    rw (h, read_to_end) (rw (more (omega arith), read_to_end) refl)

-- Enough fuel reads everything that is left.
read_to_end_lem :
    (fuel n : ℕ) (r : ChunkRead)
    → 0 < n
    → length (remaining r) < fuel
    → IsValid r
    → read_to_end fuel n r ≡ done (remaining r)
read_to_end_lem zero n r pos h v = absurd (omega (arith, h))
read_to_end_lem (suc fuel) n r pos h v =
    let (r', ran, left, w, _) = read_lem n r v in
    let xs = remaining r in
    round_lem fuel n r r' (take n xs) (drop n xs) ran
      (λ some_read.
        read_to_end_lem fuel n r' pos
          (omega (arith, h, some_read, ap length left, length-drop n xs, length-take n xs)) w
        ∙ ap done left)
      (λ nothing.
        length-nil (drop n xs) (omega (arith, nothing, length-drop n xs, length-take n xs)))
    ∙ ap done (take-append-drop n xs)
  where
    length-nil : (l : Bytes) → length l ≡ 0 → l ≡ []
    length-nil [] e = refl
    length-nil (b ∷ bs) e = absurd (omega (arith, e))

remaining-open_msg : (m : Message) → remaining (open_msg m) ≡ body m
unfolding open_msg body
remaining-open_msg (single c bytes) = refl
remaining-open_msg (chunked chunks) = refl

-- Whatever the size of its buffer, if that is not 0, reading a message to its end neither panics nor
-- goes on for ever: its contents are what the decoder of its compression, if it has one, makes of its
-- chunks, one behind the other.
pub contents_lem :
    (z : Inflate) (n : ℕ) (m : Message)
    → 0 < n
    → contents z n m ≡ inflate z (compression m) (body m)
unfolding contents
contents_lem z n m pos =
    let e =
      read_to_end_lem (enough m) n (open_msg m) pos
        (omega (arith, ap length (remaining-open_msg m))) (open_msg-IsValid m)
      ∙ ap done (remaining-open_msg m) in
    rw (e, contents) refl
