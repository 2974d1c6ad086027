-- ===== src/Process/Str.antt =====
-- sqelf/src/process/str.rs: texts that may be borrowed from the input, and texts that may be stored
-- inline. A borrowed text and an `InlineString` are the texts that they hold.
pub mod Keys
pub mod Texts
use Prim.Native.Nat.{Ordering}
use Prim.Native.String.{String, compare, len}
use text.Mathlib.Text.{◌==◌ as str_eq}
use seq_input_gelf.Common.{ℕ, Bool, Option, none, some, ltb, if◌then◌else◌}
use seq_input_gelf.Receive.Outcome.{and_then}
use seq_input_gelf.Process.Json.{Json}

-- A type of owned texts: `AsRef<str>` and `From<String>`, which keeps the text.
pub record Owned : Type 1 where
  pub Carrier : Type 0
  pub as_ref : Carrier → String
  pub from : String → Carrier

pub data Str (S : Type 0) : Type 0 where
  borrowed : String → Str S
  owned : S → Str S

-- `String` itself.
abbrev pub string : Owned
string = record { Carrier = String; as_ref = λ s. s; from = λ s. s }

-- `Str::try_from_value`.
unfoldable pub try_from_value : (J : Json) {S : Type 0} → J.Value → Option (Str S)
try_from_value J value = and_then (J.as_str value) (λ s. some (borrowed s))

-- `Str::into_owned`; `to_owned` copies the text.
unfoldable pub into_owned : Str String → Str String
into_owned (borrowed s) = owned s
into_owned (owned s) = owned s

-- `Str::as_ref`.
unfoldable pub as_ref : (O : Owned) → Str O.Carrier → String
as_ref O (borrowed s) = s
as_ref O (owned s) = O.as_ref s

-- `PartialEq::eq`.
unfoldable pub eq : (A B : Owned) → Str A.Carrier → Str B.Carrier → Bool
unfolding as_ref
eq A B a b = str_eq (as_ref A a) (as_ref B b)

-- `Hash::hash` into the state of a hasher, which takes a text.
unfoldable pub hash : (O : Owned) {H : Type 0} → (String → H → H) → Str O.Carrier → H → H
unfolding as_ref
hash O write s state = write (as_ref O s) state

-- `PartialOrd::partial_cmp` and `Ord::cmp`: texts are compared byte by byte.
unfoldable pub cmp : (A B : Owned) → Str A.Carrier → Str B.Carrier → Ordering
unfolding as_ref
cmp A B a b = compare (as_ref A a) (as_ref B b)

unfoldable pub partial_cmp : (A B : Owned) → Str A.Carrier → Str B.Carrier → Option Ordering
unfolding cmp
partial_cmp A B a b = some (cmp A B a b)

-- `Serialize::serialize`, over the serializer's method for a text and that of the owned type.
unfoldable pub serialize : {S R : Type 0} → (String → R) → (S → R) → Str S → R
serialize serialize_str serialize_owned (borrowed s) = serialize_str s
serialize serialize_str serialize_owned (owned s) = serialize_owned s

-- What a deserializer hands to its visitor: a text that it lends for the call, one borrowed from the
-- input, or one of its own.
pub data Visited : Type 0 where
  str : String → Visited
  borrowed_str : String → Visited
  own_string : String → Visited

abbrev pub text_of : Visited → String
text_of (str value) = value
text_of (borrowed_str value) = value
text_of (own_string value) = value

-- `Deserialize::deserialize`: `visit_str`, `visit_borrowed_str` and `visit_string`.
unfoldable pub deserialize : (O : Owned) → Visited → Str O.Carrier
deserialize O (str value) = owned (O.from value)
deserialize O (borrowed_str value) = borrowed value
deserialize O (own_string value) = owned (O.from value)

pub data Inlinable (S : Type 0) : Type 0 where
  inline : String → Inlinable S
  spilled : S → Inlinable S

-- `Inlinable::as_ref`, and `deref`, which is the same.
unfoldable pub inlinable_as_ref : (O : Owned) → Inlinable O.Carrier → String
inlinable_as_ref O (inline s) = s
inlinable_as_ref O (spilled s) = O.as_ref s

-- `visit_str`, which the visitor's other methods come to; `capacity` is `INLINE_STRING_CAPACITY`.
unfoldable pub inlinable_deserialize : (O : Owned) → ℕ → Visited → Inlinable O.Carrier
inlinable_deserialize O capacity v =
    let value = text_of v in
    if ltb capacity (len value) then spilled (O.from value) else inline value
