-- ===== src/Receive/Contents/Compressed.antt =====
-- A compressed message survives its way in chunks.
use seq_input_gelf.Common.{
  ℕ, ◌≤◌, ◌<◌, ◌≡◌, refl, sym, ap, ◌∙◌, List, [], ◌∷◌, ◌++◌, Option, some, arith, length,
}
use seq_input_gelf.Receive.Outcome.{Bytes}
use seq_input_gelf.Receive.Compression.{Compression, peek_magic_bytes}
use seq_input_gelf.Receive.Message.{compression, detect_bytes, chunked}
use seq_input_gelf.Receive.Reader.Stream.{body, concat}
use seq_input_gelf.Receive.Contents.{Inflate, inflate, contents}
use seq_input_gelf.Receive.Contents.Laws.{contents_lem}

-- An encoder that a decoder undoes, and whose streams begin with the magic bytes of the format.
pub record IsCodec (z : Inflate) (c : Compression) (deflate : Bytes → Bytes) : Type 0 where
  pub undone : (src : Bytes) → inflate z (some c) (deflate src) ≡ some src
  pub marked : (src : Bytes) → detect_bytes (deflate src) ≡ some c

-- The magic bytes are those of the first piece, if it has two bytes.
detect_bytes-append : (xs ys : Bytes) → 2 ≤ length xs → detect_bytes (xs ++ ys) ≡ detect_bytes xs
unfolding detect_bytes peek_magic_bytes
detect_bytes-append [] ys h = absurd (omega (arith, h))
detect_bytes-append (a ∷ []) ys h = absurd (omega (arith, h))
detect_bytes-append (a ∷ b ∷ xs) ys h = refl

-- A compressed text that is cut into pieces, the first of two bytes or more, is read back from the
-- chunked message, with a buffer of any size but 0.
pub contents-chunked :
    (z : Inflate) (c : Compression) (deflate : Bytes → Bytes) (n : ℕ) (src first : Bytes)
    (rest : List Bytes)
    → IsCodec z c deflate
    → 0 < n
    → 2 ≤ length first
    → concat (first ∷ rest) ≡ deflate src
    → contents z n (chunked (first ∷ rest)) ≡ some src
unfolding compression body concat
contents-chunked z c deflate n src first rest codec pos long e =
    let found : detect_bytes first ≡ some c =
      sym (detect_bytes-append first (concat rest) long) ∙ ap detect_bytes e ∙ codec.marked src in
    contents_lem z n (chunked (first ∷ rest)) pos
    ∙ ap (λ (d : Option Compression). inflate z d (concat (first ∷ rest))) found
    ∙ ap (inflate z (some c)) e
    ∙ codec.undone src
