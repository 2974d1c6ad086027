-- ===== src/Process/Run/Transport.antt =====
-- The processor of sqelf/src/process/mod.rs does not see how a message arrived.
use Prim.Native.String.{String}
use seq_input_gelf.Common.{
  ◌≡◌, refl, sym, ap, ◌∙◌, Bool, true, false, Option, some, Option-cases, inl, inr,
}
use seq_input_gelf.Receive.Outcome.{Bytes}
use seq_input_gelf.Io.{MemRead}
use seq_input_gelf.Process.Json.{Json}
use mathlib.Core.Path.{fun_ext}
use mathlib.Core.Option
use mathlib.Core.Option.{some_inj}
use seq_input_gelf.Process.Gelf
use seq_input_gelf.Process.Gelf.Texts.{
  Visit, str_message, inlinable_message, texts_of, str_message-texts_of, inlinable_message-texts_of,
}
use seq_input_gelf.Process.ToClef.{add}
use seq_input_gelf.Process.Run.{Parsers, ok, of_bytes, of_reader, parse_message}

-- Two parsers give the same texts, or both fail.
abbrev pub IsSameParse : {Value Decimal : Type 0} → (a b : Option (Visit Value Decimal)) → Type 0
IsSameParse a b = Option.map texts_of a ≡ Option.map texts_of b

-- What serde_json, the standard library and string_cache say of bytes that are UTF-8: parsing them as
-- bytes, as a text or from a reader finds the same texts, however these are handed over; nothing is
-- lost in the lossy conversion; and a `CachedString` is the text that it is made of.
pub record IsUtf8 {Value Decimal : Type 0} (p : Parsers Value Decimal) (src : Bytes) (text : String)
    : Type 0 where
  pub valid : p.from_utf8 src ≡ some text
  pub same_parse : IsSameParse (p.from_text text) (p.from_slice src)
  pub same_reader : IsSameParse (p.from_reader src) (p.from_slice src)
  pub lossless : p.from_utf8_lossy src ≡ text
  pub keeps : (s : String) → p.cached.as_ref (p.cached.from s) ≡ s

module _ (J : Json) {Decimal : Type 0} (p : Parsers J.Value Decimal) where
  open J use {Value}

  -- Parses of the same texts make the same message, or both fail.
  same_message :
      ((s : String) → p.cached.as_ref (p.cached.from s) ≡ s)
      → (a b : Option (Visit Value Decimal)) → IsSameParse a b
      → Option.map (inlinable_message p.cached p.capacity) a ≡ Option.map str_message b
  same_message keeps a b h =
      ap (λ (f : Visit Value Decimal → Gelf.Message Value Decimal). Option.map f a)
        (fun_ext (inlinable_message-texts_of p.cached p.capacity keeps))
      ∙ h
      ∙ ap (λ (f : Visit Value Decimal → Gelf.Message Value Decimal). Option.map f b)
          (sym (fun_ext str_message-texts_of))

  of_reader-of_bytes :
      (raw : Bool) (src : Bytes) (text : String)
      → IsUtf8 p src text
      → of_reader J p raw (some src) ≡ of_bytes J p raw src
  unfolding of_reader of_bytes
  of_reader-of_bytes true src text u =
      let same = same_message u.keeps (p.from_text text) (p.from_slice src) u.same_parse in
      elim (Option-cases (p.from_slice src)) [
        | inl e ↦ elim (Option-cases (p.from_text text)) [
          | inl e' ↦ rw (u.valid, e, e', of_reader, of_bytes, u.lossless) refl
          | inr (v', e') ↦ absurd (cc (rw (e, e') at same))
        ]
        | inr (v, e) ↦ elim (Option-cases (p.from_text text)) [
          | inl e' ↦ absurd (cc (rw (e, e') at same))
          | inr (v', e') ↦
              rw (u.valid, e, e', of_reader, of_bytes, u.lossless)
                (ap (λ m. ok (add J "raw_payload" (J.string text) m).0)
                  (some_inj.0 (rw (e, e') at same)))
        ]
      ]
  of_reader-of_bytes false src text u =
      let same = same_message u.keeps (p.from_reader src) (p.from_slice src) u.same_reader in
      elim (Option-cases (p.from_slice src)) [
        | inl e ↦ elim (Option-cases (p.from_reader src)) [
          | inl e' ↦ rw (e, e', of_reader, of_bytes) refl
          | inr (v', e') ↦ absurd (cc (rw (e, e') at same))
        ]
        | inr (v, e) ↦ elim (Option-cases (p.from_reader src)) [
          | inl e' ↦ absurd (cc (rw (e, e') at same))
          | inr (v', e') ↦ rw (e, e', of_reader, of_bytes) (ap ok (some_inj.0 (rw (e, e') at same)))
        ]
      ]

  -- A message, of any type that can be read, whose contents are some UTF-8 bytes is parsed as those
  -- bytes are, with its raw payload or without it, and fails as they do: whether it lies in one piece
  -- or only gives its contents to a reader makes no difference, nor does which of its texts are borrowed, copied,
  -- stored inline or cached.
  pub parse_message-contents :
      (R : MemRead) (raw : Bool) (msg : R.Carrier) (src : Bytes) (text : String)
      → IsUtf8 p src text
      → R.into_reader msg ≡ some src
      → parse_message J R p raw msg ≡ of_bytes J p raw src
  unfolding parse_message
  parse_message-contents R raw msg src text u h = elim (Option-cases (R.bytes msg)) [
    | inl e ↦ rw (e, h, parse_message) (of_reader-of_bytes raw src text u)
    | inr (whole, e) ↦
        let same : some whole ≡ some src = sym (R.bytes-into_reader msg whole e) ∙ h in
        rw (e ∙ same, parse_message) refl
  ]
