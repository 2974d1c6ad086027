-- ===== src/Server/Tcp/Decode/Segments.antt =====
-- What the framing of a stream should be, with no buffer and no state: the segments between null
-- bytes, less those that are too long.
use mathlib.Core.List.{append-nil, append_assoc}
use seq_input_gelf.Common.{
  ℕ, zero, suc, ◌≤◌, ◌<◌, ◌≡◌, ◌≢◌, refl, ap, ◌∙◌, Bool, true, false, List, [], ◌∷◌, ◌++◌, arith,
  ltb, ◌==◌, if◌then◌else◌, length, length-append, take, drop, none, some, Bool-cases, inl, inr,
}
use seq_input_gelf.Common.Entries.{All}
use seq_input_gelf.Receive.Outcome.{Bytes}
use seq_input_gelf.Server.Tcp.Decode.{position}

-- The segments that end in a null byte; `cur` is what has come of the first one.
unfoldable pub segments : Bytes → Bytes → List Bytes
segments cur [] = []
segments cur (b ∷ bs) = if b == 0 then cur ∷ segments [] bs else segments (cur ++ b ∷ []) bs

unfoldable pub fitting : ℕ → List Bytes → List Bytes
fitting max [] = []
fitting max (s ∷ ss) = let rest = fitting max ss in if ltb max (length s) then rest else s ∷ rest

abbrev pub tail : List Bytes → List Bytes
tail [] = []
tail (s ∷ ss) = ss

-- The frames of a stream; `skip` says that its first segment is the end of one that was too long.
unfoldable pub frames : ℕ → Bool → Bytes → List Bytes
unfolding segments fitting
frames max false bytes = fitting max (segments [] bytes)
frames max true bytes = fitting max (tail (segments [] bytes))

abbrev pub NoNull : Bytes → Type 0
NoNull bytes = All (λ b. b ≢ 0) bytes

pub segments_plain : (x cur y : Bytes) → NoNull x → segments cur (x ++ y) ≡ segments (cur ++ x) y
unfolding segments
segments_plain [] cur y h = rw append-nil
segments_plain (b ∷ x) cur y h = elim (Bool-cases (b == 0)) [
  | inl null ↦ absurd (h.0 (ground arith))
  | inr plain ↦ rw plain (segments_plain x (cur ++ b ∷ []) y h.1 ∙ rw (append_assoc cur (b ∷ []) x))
]

tail-segments : (cur cur' y : Bytes) → tail (segments cur y) ≡ tail (segments cur' y)
unfolding segments
tail-segments cur cur' [] = refl
tail-segments cur cur' (b ∷ y) = ground (arith, tail-segments (cur ++ b ∷ []) (cur' ++ b ∷ []) y)

fitting_long :
    (max : ℕ) (cur y : Bytes)
    → max < length cur
    → fitting max (segments cur y) ≡ fitting max (tail (segments cur y))
unfolding segments fitting
fitting_long max cur [] h = refl
fitting_long max cur (b ∷ y) h =
    ground (arith, length-append cur (b ∷ []), fitting_long max (cur ++ b ∷ []) y)

segments_null : (x y : Bytes) → NoNull x → segments [] (x ++ 0 ∷ y) ≡ x ∷ segments [] y
unfolding segments
segments_null x y h = segments_plain x [] (0 ∷ y) h

module _ (max : ℕ) (x : Bytes) (plain : NoNull x) where
  -- A segment that fits is the next frame.
  pub frames_frame :
      (y : Bytes) → length x ≤ max → frames max false (x ++ 0 ∷ y) ≡ x ∷ frames max false y
  unfolding frames
  frames_frame y h = rw (segments_null x y plain) (ground arith)

  -- A segment that is too long already is skipped, whatever comes.
  pub frames_long :
      (y : Bytes) → max < length x → frames max false (x ++ y) ≡ frames max true (x ++ y)
  unfolding frames
  frames_long y h = rw (segments_plain x [] y plain) (fitting_long max x y h)

  -- Skipping ends at a null byte.
  pub frames_skip : (y : Bytes) → frames max true (x ++ 0 ∷ y) ≡ frames max false y
  unfolding frames
  frames_skip y = rw (segments_null x y plain)

  -- What is skipped need not be kept.
  pub frames_drop : (y : Bytes) → frames max true (x ++ y) ≡ frames max true y
  unfolding frames
  frames_drop y = rw (segments_plain x [] y plain) (ap (fitting max) (tail-segments x [] y))

  -- Without a null byte there is no frame.
  pub frames_none : (skip : Bool) → frames max skip x ≡ []
  unfolding frames
  frames_none skip = no_frames skip
    where
      none_yet : segments [] x ≡ []
      none_yet = rw (← append-nil x) (segments_plain x [] [] plain)

      no_frames : (skip : Bool) → frames max skip x ≡ []
      no_frames true = rw none_yet
      no_frames false = rw none_yet

-- The first null byte of a buffer.
pub position-none : (x : Bytes) → position x ≡ none → NoNull x
unfolding position
position-none [] e = tt
position-none (b ∷ x) e = ground (arith, position-none x)

pub position-some :
    (x : Bytes) {i : ℕ}
    → position x ≡ some i
    → (x ≡ take i x ++ 0 ∷ drop (suc i) x) × NoNull (take i x) × (i < length x)
unfolding position
position-some [] e = absurd (cc)
position-some (b ∷ x) {i = zero} e = (ground arith, tt, omega arith)
position-some (b ∷ x) {i = suc i} e =
    let (split, plain, inside) = position-some x {i = i} (ground arith) in
    (ap (◌∷◌ b) split, (ground arith, plain), omega arith)
