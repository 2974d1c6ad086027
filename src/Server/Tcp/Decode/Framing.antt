-- ===== src/Server/Tcp/Decode/Framing.antt =====
-- One call of the decoder against the frames of the stream: the loop ends, does not panic, and
-- answers with the next frame, whatever bytes will come later.
use mathlib.Core.List.{append_assoc}
use seq_input_gelf.Common.{
  ℕ, zero, suc, ◌+◌, ◌*◌, ◌≤◌, ◌<◌, ◌≡◌, sym, ap, ◌∙◌, min, Bool, true, false, List, [], ◌∷◌, ◌++◌,
  arith, if◌then◌else◌, length, length-drop, length-take, take, drop, drop-drop, take-add,
  take-append-drop, none, some,
}
use seq_input_gelf.Receive.Outcome.{Bytes}
use seq_input_gelf.Server.Metrics.{Metrics, count_overflow}
use seq_input_gelf.Server.Tcp.Decode.Segments.{
  frames, NoNull, frames_frame, frames_long, frames_skip, position-none, position-some,
}
use seq_input_gelf.Server.Tcp.Decode.{
  Decode, Step, frame, more, panicked, out_of_fuel, position, saturating_suc, next_frame,
}

-- The read head lies in the buffer, and there is no null byte before it.
pub record Inv (d : Decode) (src : Bytes) : Type 0 where
  pub inside : d.read_head ≤ length src
  pub plain : NoNull (take d.read_head src)

-- The frames of the bytes in the buffer and of those to come.
abbrev pub pending : Decode → Bytes → Bytes → List Bytes
pending d src later = frames d.max_size_bytes d.discarding (src ++ later)

-- A step answers well: a frame is the next one of the stream; after `more` the buffer holds none and
-- has no null byte, is no longer than a frame may be, and is empty if the decoder discards.
abbrev pub Answers : Decode → Bytes → Step × Decode × Bytes → Type 0
Answers d src (frame f, d', src') =
    (later : Bytes) → pending d src later ≡ f ∷ pending d' src' later
Answers d src (more, d', src') =
    ((later : Bytes) → pending d src later ≡ pending d' src' later)
    × (pending d' src' [] ≡ [])
    × (length src' ≤ d.max_size_bytes)
    × (NoNull src' × (d'.discarding ≡ true → src' ≡ []))
Answers d src (panicked, d', src') = ⊥
Answers d src (out_of_fuel, d', src') = ⊥

pub record Good (d : Decode) (src : Bytes) (r : Step × Decode × Bytes) : Type 0 where
  pub inv : Inv r.1 r.2
  pub max : r.1.max_size_bytes ≡ d.max_size_bytes
  pub answers : Answers d src r

NoNull-append : (x y : Bytes) → NoNull x → NoNull y → NoNull (x ++ y)
NoNull-append [] y h k = k
NoNull-append (b ∷ x) y h k = (h.0, NoNull-append x y h.1 k)

pub NoNull-take : (n : ℕ) (x : Bytes) → NoNull x → NoNull (take n x)
NoNull-take zero x h = tt
NoNull-take (suc n) [] h = tt
NoNull-take (suc n) (b ∷ x) h = (h.0, NoNull-take n x h.1)

-- A buffer with a null byte behind the read head: the segment before it, and what follows.
module _ (d : Decode) (src : Bytes) (v : Inv d src) where
  pub whole_plain : position (drop d.read_head src) ≡ none → NoNull src
  whole_plain e = rw (← take-append-drop d.read_head src) (
      NoNull-append (take d.read_head src) (drop d.read_head src) v.plain
        (position-none (drop d.read_head src) e))

  abbrev pub Split : ℕ → Type 0
  Split i =
      (src ≡ take (i + d.read_head) src ++ 0 ∷ drop (i + d.read_head + 1) src)
      × NoNull (take (i + d.read_head) src)
      × (length (take (i + d.read_head) src) ≡ i + d.read_head)
      × (i + d.read_head < length src)

  pub split_lem : {i : ℕ} → position (drop d.read_head src) ≡ some i → Split i
  split_lem {i} e =
      let (split, plain, inside) = position-some (drop h src) e in
      let before : i + h ≡ h + i = omega arith in
      let behind : h + i + 1 ≡ h + suc i = omega arith in
      let joined = take-add h i src in
      (
        rw (before, behind)
            (sym (take-append-drop h src)
              ∙ ap (◌++◌ (take h src)) split
              ∙ sym
                  (append_assoc (take h src) (take i (drop h src)) (0 ∷ drop (suc i) (drop h src)))
              ∙ rw (drop-drop, ← joined)),
        rw (before, joined) (NoNull-append (take h src) (take i (drop h src)) v.plain plain),
        omega (arith, length-take (i + h) src, length-drop h src),
        omega (arith, length-drop h src),
      )
    where
      h : ℕ
      h = d.read_head

pub restart-Inv : (d : Decode) (src : Bytes) → Inv (record d { read_head = 0 }) src
restart-Inv d src = record { inside = omega arith; plain = tt }

-- How much the loop has still to do.
abbrev pub measure : Decode → Bytes → ℕ
measure d src = 2 * length src + (if d.discarding then 0 else 1)

-- A turn that only moves on, to a decoder and a buffer with the same frames pending.
pub Good-step :
    (d e : Decode) (src src' : Bytes) (r : Step × Decode × Bytes)
    → e.max_size_bytes ≡ d.max_size_bytes
    → ((later : Bytes) → pending d src later ≡ pending e src' later)
    → Good e src' r
    → Good d src r
Good-step d e src src' r same_max same g = record {
  inv = g.inv;
  max = g.max ∙ same_max;
  answers = carry r g.answers;
}
  where
    carry : (r : Step × Decode × Bytes) → Answers e src' r → Answers d src r
    carry (frame f, d', rest) a = λ later. same later ∙ a later
    carry (more, d', rest) a = ((λ later. same later ∙ a.0 later), a.1, rw (← same_max) a.2, a.3)
    carry (panicked, d', rest) a = a
    carry (out_of_fuel, d', rest) a = a

-- The frames pending where the buffer splits at a null byte.
module _ (max : ℕ) (src later : Bytes) (x y : Bytes) (split : src ≡ x ++ 0 ∷ y)
    (plain : NoNull x) where
  joined : src ++ later ≡ x ++ 0 ∷ (y ++ later)
  joined = ap (λ (s : Bytes). s ++ later) split ∙ append_assoc x (0 ∷ y) later

  pub pending_frame :
      length x ≤ max → frames max false (src ++ later) ≡ x ∷ frames max false (y ++ later)
  pending_frame h = rw joined (frames_frame max x plain (y ++ later) h)

  pub pending_skip : frames max true (src ++ later) ≡ frames max false (y ++ later)
  pending_skip = rw joined (frames_skip max x plain (y ++ later))

  pub pending_long :
      max < length x → frames max false (src ++ later) ≡ frames max true (src ++ later)
  pending_long h = rw joined (frames_long max x plain (0 ∷ (y ++ later)) h)

abbrev pub state : ℕ → ℕ → Bool → Metrics → Decode
state max h skip m = record { max_size_bytes = max; read_head = h; discarding = skip; metrics = m }

-- The six ways through a turn of the loop.
module _ (fuel max h : ℕ) (m : Metrics) (src : Bytes) (inside : h ≤ length src) where
  pub turn_frame :
      {i : ℕ}
      → position (drop h src) ≡ some i
      → i + h ≤ max
      → next_frame (suc fuel) (state max h false m) src
        ≡ (frame (take (i + h) src), state max 0 false m, drop (i + h + 1) src)
  unfolding next_frame
  turn_frame e fits = ground arith

  pub turn_overflow :
      {i : ℕ}
      → position (drop h src) ≡ some i
      → max < i + h
      → next_frame (suc fuel) (state max h false m) src
        ≡ next_frame fuel (state max h true (count_overflow m)) src
  unfolding next_frame
  turn_overflow e long = ground arith

  pub turn_resume :
      {i : ℕ}
      → position (drop h src) ≡ some i
      → next_frame (suc fuel) (state max h true m) src
        ≡ next_frame fuel (state max 0 false m) (drop (i + h + 1) src)
  unfolding next_frame
  turn_resume e = ground arith

  pub turn_discard :
      position (drop h src) ≡ none
      → max < length src
      → next_frame (suc fuel) (state max h false m) src
        ≡ next_frame fuel (state max h true (count_overflow m)) src
  unfolding next_frame
  turn_discard e long = ground arith

  pub turn_more :
      position (drop h src) ≡ none
      → length src ≤ max
      → next_frame (suc fuel) (state max h false m) src
        ≡ (more, state max (min (saturating_suc max) (length src)) false m, src)
  unfolding next_frame
  turn_more e fits = ground arith

  pub turn_emptied :
      position (drop h src) ≡ none
      → drop (min (saturating_suc max) (length src)) src ≡ []
      → next_frame (suc fuel) (state max h true m) src ≡ (more, state max 0 true m, [])
  unfolding next_frame
  turn_emptied e gone = ground arith

  pub turn_drop :
      {b : ℕ} {bs : Bytes}
      → position (drop h src) ≡ none
      → drop (min (saturating_suc max) (length src)) src ≡ b ∷ bs
      → next_frame (suc fuel) (state max h true m) src
        ≡ next_frame fuel (state max 0 true m) (b ∷ bs)
  unfolding next_frame
  turn_drop e left = ground arith
