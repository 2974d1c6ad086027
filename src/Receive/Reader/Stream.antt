-- ===== src/Receive/Reader/Stream.antt =====
-- A message read piece by piece is the concatenation of its chunks.
use mathlib.Core.List.{append-nil, append_assoc}
use native.Mathlib.Numerals.{add-one}
use seq_input_gelf.Common.{
  ℕ, zero, suc, ◌+◌, ◌-◌, ◌≤◌, ◌<◌, ◌≡◌, refl, sym, ap, ◌∙◌, min, List, [], ◌∷◌, ◌++◌, none, some,
  arith, length, length-drop, take, drop, get_elem?, Bool-cases, Option-cases, inl, inr,
  drop_of_append, drop_nil, take_all, take_of_append, drop-drop, leb,
}
use seq_input_gelf.Receive.Outcome.{Bytes}
use seq_input_gelf.Receive.Message.{Message, single, chunked}
use seq_input_gelf.Receive.Reader.{Read, done, Place, advance, read_loop}

unfoldable pub concat : List Bytes → Bytes
concat [] = []
concat (b ∷ bs) = b ++ concat bs

-- The bytes of a message: its chunks one behind the other.
unfoldable pub body : Message → Bytes
unfolding concat
body (single c bytes) = bytes
body (chunked chunks) = concat chunks

-- What is left of the chunks behind a place.
abbrev pub rest_of : List Bytes → Place → Bytes
rest_of chunks p = drop p.cursor (concat (drop p.chunk chunks))

-- The cursor lies within the chunk, or at the start where there is none.
abbrev pub InChunk : List Bytes → Place → Type 0
InChunk chunks p = elim (get_elem? chunks p.chunk) as (λ _. Type 0) [
  | none ↦ p.cursor ≡ 0
  | some bytes ↦ p.cursor ≤ length bytes
]

module _ {A : Type 0} where
  drop_at :
      (xs : List A) (i : ℕ) {x : A} → get_elem? xs i ≡ some x → drop i xs ≡ x ∷ drop (suc i) xs
  drop_at [] i e = absurd (cc)
  drop_at (y ∷ xs) zero e = cc
  drop_at (y ∷ xs) (suc i) e = drop_at xs i e

  drop_end : (xs : List A) (i : ℕ) → get_elem? xs i ≡ none → drop i xs ≡ []
  drop_end [] i e = drop_nil i
  drop_end (y ∷ xs) zero e = absurd (cc)
  drop_end (y ∷ xs) (suc i) e = drop_end xs i e

  get_elem?_bound : (xs : List A) (i : ℕ) {x : A} → get_elem? xs i ≡ some x → i < length xs
  get_elem?_bound [] i e = absurd (cc)
  get_elem?_bound (y ∷ xs) zero e = omega arith
  get_elem?_bound (y ∷ xs) (suc i) e = omega (arith, get_elem?_bound xs i e)

  take_past :
      (n : ℕ) (xs ys : List A) → length xs ≤ n → take n (xs ++ ys) ≡ xs ++ take (n - length xs) ys
  take_past n [] ys h = let e : n - 0 ≡ n = omega arith in rw e
  take_past zero (x ∷ xs) ys h = absurd (omega arith)
  take_past (suc n) (x ∷ xs) ys h =
      let e : suc n - suc (length xs) ≡ n - length xs = omega arith in
      rw e (ap (◌∷◌ x) (take_past n xs ys (omega arith)))

  drop_past : (n : ℕ) (xs ys : List A) → length xs ≤ n → drop n (xs ++ ys) ≡ drop (n - length xs) ys
  drop_past n [] ys h = let e : n - 0 ≡ n = omega arith in rw e
  drop_past zero (x ∷ xs) ys h = absurd (omega arith)
  drop_past (suc n) (x ∷ xs) ys h =
      let e : suc n - suc (length xs) ≡ n - length xs = omega arith in
      rw e (drop_past n xs ys (omega arith))

-- What a read must do from a place: write the next `n` bytes, or all that are left, behind `out`,
-- and leave the reader where the rest begins.
abbrev pub Reads : List Bytes → ℕ → Place → Bytes → Read (Bytes × Place) → Type 0
Reads chunks n p out r =
    (q : Place) × (r ≡ done (out ++ take n (rest_of chunks p), q))
    × (rest_of chunks q ≡ drop n (rest_of chunks p))
    × InChunk chunks q

module _ (chunks : List Bytes) where
  -- The loop ends on a full buffer.
  loop_full :
      (fuel : ℕ) (p : Place) (out : Bytes)
      → InChunk chunks p
      → Reads chunks 0 p out (read_loop (suc fuel) chunks 0 p out)
  unfolding read_loop
  loop_full fuel p out v = (p, rw append-nil, refl, v)

  pub InChunk-start : (i : ℕ) → InChunk chunks (record { chunk = i; cursor = 0 })
  InChunk-start i = ground arith

  rest_of_end : (p : Place) → get_elem? chunks p.chunk ≡ none → rest_of chunks p ≡ []
  unfolding concat
  rest_of_end p e =
      ap (λ (bs : List Bytes). drop p.cursor (concat bs)) (drop_end chunks p.chunk e)
      ∙ drop_nil p.cursor

  -- Past the last chunk there is nothing to read.
  loop_end :
      (fuel n : ℕ) (p : Place) (out : Bytes)
      → get_elem? chunks p.chunk ≡ none
      → InChunk chunks p
      → Reads chunks (suc n) p out (read_loop (suc fuel) chunks (suc n) p out)
  unfolding read_loop
  loop_end fuel n p out e v =
      (p, ground (arith, rest_of_end p e, append-nil out), ground (arith, rest_of_end p e), v)

  module _ (p : Place) (bytes : Bytes) (e : get_elem? chunks p.chunk ≡ some bytes) where
    abbrev readable : Bytes
    readable = drop p.cursor bytes

    abbrev next_chunk : Place
    next_chunk = record { chunk = p.chunk + 1; cursor = 0 }

    cursor_fits : InChunk chunks p → p.cursor ≤ length bytes
    cursor_fits v = rw (e, InChunk) at v

    rest_split : p.cursor ≤ length bytes → rest_of chunks p ≡ readable ++ rest_of chunks next_chunk
    unfolding concat
    rest_split h =
        ap (λ (bs : List Bytes). drop p.cursor (concat bs)) (drop_at chunks p.chunk e)
        ∙ drop_of_append p.cursor bytes (concat (drop (suc p.chunk) chunks)) h
        ∙ rw add-one

    -- One turn of the loop.
    turn :
        (fuel n : ℕ) (out : Bytes)
        → p.cursor ≤ length bytes
        → read_loop (suc fuel) chunks (suc n) p out
          ≡ read_loop fuel chunks
              (suc n - min (length readable) (suc n))
              (advance readable (suc n) p)
              (out ++ take (min (length readable) (suc n)) readable)
    unfolding read_loop
    turn fuel n out h = ground arith

    advance_done : (n : ℕ) → length readable ≤ n → advance readable n p ≡ next_chunk
    unfolding advance
    advance_done n h = ground arith

    advance_part :
        (n : ℕ) → n < length readable → advance readable n p ≡ record p { cursor = p.cursor + n }
    unfolding advance
    advance_part n h = ground arith

    -- A chunk that does not overfill the buffer is finished.
    loop_chunk :
        (fuel n : ℕ) (out : Bytes)
        → p.cursor ≤ length bytes
        → length readable ≤ suc n
        → Reads chunks
            (suc n - length readable)
            next_chunk
            (out ++ readable)
            (read_loop fuel chunks (suc n - length readable) next_chunk (out ++ readable))
        → Reads chunks (suc n) p out (read_loop (suc fuel) chunks (suc n) p out)
    loop_chunk fuel n out h short (q, r, l, w) = (q, turn fuel n out h ∙ ran, left, w)
      where
        after : Bytes
        after = rest_of chunks next_chunk

        taken : take (suc n) (rest_of chunks p) ≡ readable ++ take (suc n - length readable) after
        taken = ap (take (suc n)) (rest_split h) ∙ take_past (suc n) readable after short

        ran :
            read_loop fuel chunks
              (suc n - min (length readable) (suc n))
              (advance readable (suc n) p)
              (out ++ take (min (length readable) (suc n)) readable)
            ≡ done (out ++ take (suc n) (rest_of chunks p), q)
        ran =
            let m : min (length readable) (suc n) ≡ length readable = omega arith in
            rw (m, advance_done (suc n) short, take_all (length readable) readable (omega arith))
              (r
                ∙ ap (λ (x : Bytes). done (x, q))
                    (append_assoc out readable (take (suc n - length readable) after)
                      ∙ ap (◌++◌ out) (sym taken)))

        left : rest_of chunks q ≡ drop (suc n) (rest_of chunks p)
        left = l ∙ sym (ap (drop (suc n)) (rest_split h) ∙ drop_past (suc n) readable after short)

    -- A chunk that fills the buffer is kept.
    loop_last :
        (fuel n : ℕ) (out : Bytes)
        → p.cursor ≤ length bytes
        → suc n < length readable
        → Reads chunks (suc n) p out (read_loop (suc (suc fuel)) chunks (suc n) p out)
    unfolding read_loop
    loop_last fuel n out h long = (q, turn (suc fuel) n out h ∙ ran, left, here)
      where
        q : Place
        q = record p { cursor = p.cursor + suc n }

        ran :
            read_loop
              (suc fuel)
              chunks
              (suc n - min (length readable) (suc n))
              (advance readable (suc n) p)
              (out ++ take (min (length readable) (suc n)) readable)
            ≡ done (out ++ take (suc n) (rest_of chunks p), q)
        ran =
            let m : min (length readable) (suc n) ≡ suc n = omega arith in
            let z : suc n - suc n ≡ 0 = omega arith in
            rw (m, advance_part (suc n) long, z)
              (ap (λ (x : Bytes). done (out ++ x, q))
                (sym (
                  ap (take (suc n)) (rest_split h)
                  ∙ take_of_append (suc n) readable (rest_of chunks next_chunk) (omega arith))))

        left : rest_of chunks q ≡ drop (suc n) (rest_of chunks p)
        left = sym (drop-drop p.cursor (suc n) (concat (drop p.chunk chunks)))

        here : InChunk chunks q
        here = rw (e, InChunk) (omega (arith, length-drop p.cursor bytes))

  -- With a turn of fuel for each chunk behind the place, and two more, the loop reads.
  pub loop-Reads :
      (fuel n : ℕ) (p : Place) (out : Bytes)
      → length chunks - p.chunk + 1 < fuel
      → InChunk chunks p
      → Reads chunks n p out (read_loop fuel chunks n p out)
  loop-Reads zero n p out h v = absurd (omega arith)
  loop-Reads (suc fuel) zero p out h v = loop_full fuel p out v
  loop-Reads (suc zero) (suc n) p out h v = absurd (omega arith)
  loop-Reads (suc (suc fuel)) (suc n) p out h v = elim (Option-cases (get_elem? chunks p.chunk)) [
    | inl e ↦ loop_end (suc fuel) n p out e v
    | inr (bytes, e) ↦
        let fits = cursor_fits p bytes e v in
        elim (Bool-cases (leb (length (drop p.cursor bytes)) (suc n))) [
          | inl short ↦ loop_chunk p bytes e (suc fuel) n out fits (ground arith) (
              loop-Reads (suc fuel) (suc n - length (drop p.cursor bytes))
                (record { chunk = p.chunk + 1; cursor = 0 }) (out ++ drop p.cursor bytes)
                (omega (arith, get_elem?_bound chunks p.chunk e)) (InChunk-start (p.chunk + 1)))
          | inr long ↦ loop_last p bytes e fuel n out fits (ground arith)
        ]
  ]
