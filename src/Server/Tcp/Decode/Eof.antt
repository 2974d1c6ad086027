-- ===== src/Server/Tcp/Decode/Eof.antt =====
-- The end of a connection: `decode_eof` of sqelf/src/server/tcp.rs.
use seq_input_gelf.Common.{
  ℕ, ◌≡◌, refl, sym, ap, ◌∙◌, false, List, [], ◌∷◌, ◌++◌, Option, none, some, inl, inr, Bool-cases,
}
use seq_input_gelf.Receive.Outcome.{Bytes, Result}
use seq_input_gelf.Receive.Message.{Message}
use seq_input_gelf.Server.Received.{Received, into_received, into_received-some}
use seq_input_gelf.Server.Metrics.{Metrics}
use seq_input_gelf.Server.Tcp.Decode.Segments.{frames, frames_frame, frames_none}
use seq_input_gelf.Server.Tcp.Decode.Stream.{
  Event, arrived, feed, run, opened, owed, IsLast, decode-Takes, run-Follows,
}
use seq_input_gelf.Server.Tcp.Decode.{item, Connection, decode, decode_eof, last_frame, new}

module _ {S : Type 0} (receive : Bytes → S → S × Result (Option Message)) where
  abbrev pub asked_more : Connection S → Connection S
  asked_more c = (decode receive c).0

  -- With a null byte behind it, what is left is a frame.
  pub owed_null :
      (c : Connection S) (b : ℕ) (bs : Bytes)
      → IsLast receive c
      → c.src ≡ b ∷ bs
      → owed receive c (0 ∷ []) ≡ (b ∷ bs) ∷ []
  owed_null c b bs last left = elim (Bool-cases c.decoder.discarding) [
    | inl h ↦ absurd (cc (last.skipped h, left))
    | inr h ↦
        rw (h, ← left)
          (frames_frame c.decoder.max_size_bytes c.src last.plain [] last.fits
            ∙ ap (λ (fs : List Bytes). c.src ∷ fs)
                (frames_none c.decoder.max_size_bytes [] tt false))
  ]

  -- `decode_eof` on what is left.
  pub decode_eof-last :
      (c : Connection S) (b : ℕ) (bs : Bytes)
      → (decode receive c).1 ≡ item none
      → (asked_more c).src ≡ b ∷ bs
      → ((decode_eof receive c).1
          ≡ item (into_received (receive (b ∷ bs) (asked_more c).receiver).1))
        × ((decode_eof receive c).0.receiver ≡ (receive (b ∷ bs) (asked_more c).receiver).0)
        × ((decode_eof receive c).0.src ≡ [])
  unfolding decode_eof last_frame
  decode_eof-last c b bs asked left = rw (asked, left, decode_eof, last_frame) (refl, refl, refl)

  -- If a new connection that has run over any reads and polls asks for more bytes, and bytes are left
  -- in its buffer, then `decode_eof` gives them to the receiver as the frame that they would be if a
  -- null byte came, and the buffer is empty: the last frame needs no null byte.
  pub run-eof :
      (max : ℕ) (m : Metrics) (s : S) (es : List Event) (c' : Connection S)
      (l : List (Option Received)) (b : ℕ) (bs : Bytes)
      → run receive es (opened receive max m s) ≡ (c', some l)
      → (decode receive c').1 ≡ item none
      → (asked_more c').src ≡ b ∷ bs
      → (x : Received) × ((decode_eof receive c').1 ≡ item (some x))
        × (feed receive (frames max false (arrived es ++ 0 ∷ [])) s
            ≡ ((decode_eof receive c').0.receiver, l ++ some x ∷ []))
        × ((decode_eof receive c').0.src ≡ [])
  unfolding opened new feed
  run-eof max m s es c' l b bs ran asked left =
      let (w, fed) = run-Follows receive max m s es c' l ran in
      elim (decode-Takes receive c' w).1 [
        | inr (f, a, _, _) ↦
            let (x, e) = into_received-some (receive f c'.receiver).1 in absurd (cc (a, asked, e))
        | inl (_, same, kept, _, last) ↦
            let (taken, moved, emptied) = decode_eof-last c' b bs asked left in
            let (x, e) = into_received-some (receive (b ∷ bs) (asked_more c').receiver).1 in
            let final = same (0 ∷ []) ∙ owed_null (asked_more c') b bs last left in
            let answered =
              fed (0 ∷ [])
              ∙ ap
                  (λ (fs : List Bytes).
                    ((feed receive fs c'.receiver).0, l ++ (feed receive fs c'.receiver).1))
                  final
              ∙ ap
                  (λ (r : S).
                    ((receive (b ∷ bs) r).0, l ++ into_received (receive (b ∷ bs) r).1 ∷ []))
                  (sym kept)
              ∙ (λ i. (sym moved i, l ++ e i ∷ [])) in
            (x, taken ∙ ap item e, answered, emptied)
      ]
