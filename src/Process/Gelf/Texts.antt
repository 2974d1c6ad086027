-- ===== src/Process/Gelf/Texts.antt =====
-- The types of the texts of a message of sqelf/src/process/gelf.rs: each is made by its own
-- `deserialize` of what the parser hands to its visitor.
use mathlib.Core.Path.{fun_ext}
use mathlib.Core.Option
use Prim.Native.String.{String}
use seq_input_gelf.Common.{ℕ, ◌≡◌, refl, ap, Bool-cases, inl, inr, Option, ltb}
use Prim.Native.String.{len}
use seq_input_gelf.Process.Gelf.{Message}
use seq_input_gelf.Process.Str.{
  Owned, string, Visited, str, borrowed_str, own_string, text_of, as_ref, deserialize,
  inlinable_as_ref, inlinable_deserialize,
}

-- A message as a parser goes through it: its texts are what it hands to their visitors.
pub record Visit (Value Decimal : Type 0) : Type 0 where
  pub version : Option Visited
  pub host : Option Visited
  pub short_message : Visited
  pub full_message : Option Visited
  pub timestamp : Option Decimal
  pub level : Option ℕ
  pub facility : Option Visited
  pub line : Option ℕ
  pub file : Option Visited
  pub additional : Option Value

-- `Message::deserialize` for the texts of `TString` and of `TMessage`, of which only `as_ref` is used.
unfoldable pub deserialize_message :
    {Value Decimal : Type 0}
    → (t_string t_message : Visited → String) → Visit Value Decimal
    → Message Value Decimal
deserialize_message t_string t_message v = record {
  version = Option.map t_string v.version;
  host = Option.map t_string v.host;
  short_message = t_message v.short_message;
  full_message = Option.map t_message v.full_message;
  timestamp = v.timestamp;
  level = v.level;
  facility = Option.map t_message v.facility;
  line = v.line;
  file = Option.map t_message v.file;
  additional = v.additional;
}

-- The text of a `Str`, and of an `Inlinable`, that is read.
unfoldable pub str_text : Visited → String
unfolding as_ref deserialize
str_text v = as_ref string (deserialize string v)

unfoldable pub inlinable_text : Owned → ℕ → Visited → String
unfolding inlinable_as_ref inlinable_deserialize
inlinable_text O capacity v = inlinable_as_ref O (inlinable_deserialize O capacity v)

-- `Message<Str>`, and `Message<Inlinable<S>, String>`.
unfoldable pub str_message : {Value Decimal : Type 0} → Visit Value Decimal → Message Value Decimal
unfolding deserialize_message str_text
str_message v = deserialize_message str_text str_text v

unfoldable pub inlinable_message :
    {Value Decimal : Type 0} → Owned → ℕ → Visit Value Decimal → Message Value Decimal
unfolding deserialize_message inlinable_text
inlinable_message O capacity v = deserialize_message (inlinable_text O capacity) text_of v

-- The message of the texts alone.
abbrev pub texts_of : {Value Decimal : Type 0} → Visit Value Decimal → Message Value Decimal
texts_of v = deserialize_message text_of text_of v

str_text-text_of : (v : Visited) → str_text v ≡ text_of v
unfolding str_text as_ref deserialize
str_text-text_of (str s) = refl
str_text-text_of (borrowed_str s) = refl
str_text-text_of (own_string s) = refl

inlinable_text-text_of :
    (O : Owned) (capacity : ℕ)
    → ((s : String) → O.as_ref (O.from s) ≡ s)
    → (v : Visited) → inlinable_text O capacity v ≡ text_of v
unfolding inlinable_text inlinable_as_ref inlinable_deserialize
inlinable_text-text_of O capacity keeps v = elim (Bool-cases (ltb capacity (len (text_of v)))) [
  | inl long ↦ rw (long) (keeps (text_of v))
  | inr fits ↦ rw (fits) refl
]

pub str_message-texts_of :
    {Value Decimal : Type 0} (v : Visit Value Decimal) → str_message v ≡ texts_of v
unfolding str_message
str_message-texts_of v =
    ap (λ (f : Visited → String). deserialize_message f f v) (fun_ext str_text-text_of)

pub inlinable_message-texts_of :
    {Value Decimal : Type 0} (O : Owned) (capacity : ℕ)
    → ((s : String) → O.as_ref (O.from s) ≡ s)
    → (v : Visit Value Decimal) → inlinable_message O capacity v ≡ texts_of v
unfolding inlinable_message
inlinable_message-texts_of O capacity keeps v =
    ap (λ (f : Visited → String). deserialize_message f text_of v)
      (fun_ext (inlinable_text-text_of O capacity keeps))
