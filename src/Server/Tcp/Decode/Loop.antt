-- ===== src/Server/Tcp/Decode/Loop.antt =====
-- The loop of `decode` ends with the fuel that it is given, never panics, and answers well.
use mathlib.Core.List.{append-nil, append_assoc}
use seq_input_gelf.Common.{
  ℕ, zero, suc, ◌+◌, ◌<◌, ◌≡◌, refl, sym, ap, ◌∙◌, min, Bool, true, false, [], ◌∷◌, ◌++◌, arith,
  leb, length, length-drop, take, drop, take-append-drop, Bool-cases, Option-cases, inl, inr, ◌⊎◌,
}
use seq_input_gelf.Receive.Outcome.{Bytes}
use seq_input_gelf.Server.Metrics.{Metrics, count_overflow}
use seq_input_gelf.Server.Tcp.Decode.Segments.{
  frames, NoNull, frames_long, frames_drop, frames_none,
}
use seq_input_gelf.Server.Tcp.Decode.Framing.{
  Inv, Good, Good-step, restart-Inv, NoNull-take, whole_plain, split_lem, pending_frame,
  pending_skip, pending_long, state, measure, turn_frame, turn_overflow, turn_resume, turn_discard,
  turn_more, turn_emptied, turn_drop,
}
use seq_input_gelf.Server.Tcp.Decode.{Decode, position, saturating_suc, next_frame, enough}

List-cases : (xs : Bytes) → (xs ≡ []) ⊎ ((b : ℕ) × (bs : Bytes) × (xs ≡ b ∷ bs))
List-cases [] = inl refl
List-cases (b ∷ bs) = inr (b, bs, refl)

-- What is dropped while discarding holds no null byte.
pending_drop :
    (max : ℕ) (src : Bytes) (n b : ℕ) (bs : Bytes)
    → drop n src ≡ b ∷ bs
    → NoNull src
    → (later : Bytes) → frames max true (src ++ later) ≡ frames max true (b ∷ bs ++ later)
pending_drop max src n b bs left plain later =
    ap (λ (s : Bytes). frames max true (s ++ later))
      (sym (take-append-drop n src) ∙ ap (◌++◌ (take n src)) left)
    ∙ ap (frames max true) (append_assoc (take n src) (b ∷ bs) later)
    ∙ frames_drop max (take n src) (NoNull-take n src plain) (b ∷ bs ++ later)

-- The fuel suffices: each turn lessens the measure.
loop :
    (fuel max h : ℕ) (skip : Bool) (m : Metrics) (src : Bytes)
    → Inv (state max h skip m) src
    → measure (state max h skip m) src < fuel
    → Good (state max h skip m) src (next_frame fuel (state max h skip m) src)
loop zero max h skip m src v small = absurd (omega arith)
loop (suc fuel) max h false m src v small = elim (Option-cases (position (drop h src))) [
  | inr (i, e) ↦
      let (split, plain, size, within) = split_lem (state max h false m) src v e in
      elim (Bool-cases (leb (i + h) max)) [
        | inl fits ↦ rw (turn_frame fuel max h m src v.inside e (ground arith)) (record {
          inv = restart-Inv (state max 0 false m) _;
          max = refl;
          answers = λ later.
              pending_frame max src later (take (i + h) src) (drop (i + h + 1) src) split plain
                (ground arith);
        })
        | inr long ↦ rw (turn_overflow fuel max h m src v.inside e (ground arith)) (
            Good-step _ (state max h true (count_overflow m)) src src _ refl
              (λ later.
                pending_long max src later (take (i + h) src) (drop (i + h + 1) src) split plain
                  (ground arith))
              (loop fuel max h true (count_overflow m) src
                (record { inside = v.inside; plain = v.plain }) (omega arith)))
      ]
  | inl e ↦
      let plain = whole_plain (state max h false m) src v e in
      elim (Bool-cases (leb (length src) max)) [
        | inr long ↦ rw (turn_discard fuel max h m src v.inside e (ground arith)) (
            Good-step _ (state max h true (count_overflow m)) src src _ refl
              (λ later. frames_long max src plain later (ground arith))
              (loop fuel max h true (count_overflow m) src
                (record { inside = v.inside; plain = v.plain }) (omega arith)))
        | inl fits ↦ rw (turn_more fuel max h m src v.inside e (ground arith)) (record {
          inv = record { inside = omega arith; plain = NoNull-take _ src plain };
          max = refl;
          answers = (
            (λ later. refl),
            rw append-nil (frames_none max src plain false),
            ground arith,
            (plain, λ skips. absurd (cc (skips))),
          );
        })
      ]
]
loop (suc fuel) max h true m src v small = elim (Option-cases (position (drop h src))) [
  | inr (i, e) ↦
      let (split, plain, size, within) = split_lem (state max h true m) src v e in
      rw (turn_resume fuel max h m src v.inside e) (
        Good-step _ (state max 0 false m) src (drop (i + h + 1) src) _ refl
          (λ later.
            pending_skip max src later (take (i + h) src) (drop (i + h + 1) src) split plain)
          (loop fuel max 0 false m (drop (i + h + 1) src) (restart-Inv (state max 0 false m) _)
            (omega (arith, length-drop (i + h + 1) src))))
  | inl e ↦
      let plain = whole_plain (state max h true m) src v e in
      let n = min (saturating_suc max) (length src) in
      elim (List-cases (drop n src)) [
        | inl gone ↦ rw (turn_emptied fuel max h m src v.inside e gone) (record {
          inv = restart-Inv (state max 0 true m) [];
          max = refl;
          answers = (
            frames_drop max src plain,
            frames_none max [] tt true,
            omega arith,
            (tt, λ skips. refl),
          );
        })
        | inr (b, bs, left) ↦ rw (turn_drop fuel max h m src v.inside e left) (
            Good-step _ (state max 0 true m) src (b ∷ bs) _ refl
              (pending_drop max src n b bs left plain)
              (loop fuel max 0 true m (b ∷ bs) (restart-Inv (state max 0 true m) _)
                (omega (arith, ap length left, length-drop n src))))
      ]
]

-- A call of the decoder ends with a frame or with the need of more bytes: it neither panics nor runs
-- on. A frame is the next segment of the stream that is not too long, whatever bytes come later; when
-- it asks for more, no whole frame is left in the buffer, which holds no more than the longest frame.
pub next_frame-Good :
    (d : Decode) (src : Bytes) → Inv d src → Good d src (next_frame (enough src) d src)
next_frame-Good d src v =
    loop (enough src) d.max_size_bytes d.read_head d.discarding d.metrics src v (ground arith)
