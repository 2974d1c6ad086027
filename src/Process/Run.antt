-- ===== src/Process/Run.antt =====
-- `Config` and `Process` of sqelf/src/process/mod.rs: a message is parsed, its raw payload is added
-- where the configuration asks for it, and the event goes on to a callback.
pub mod Transport
use Prim.Native.String.{String}
use seq_input_gelf.Common.{ℕ, Bool, true, false, Option, none, some, List, [], ◌∷◌, ◌++◌}
use seq_input_gelf.Diagnostics.{increment}
use seq_input_gelf.Receive.Outcome.{Bytes}
use seq_input_gelf.Io.{MemRead}
use seq_input_gelf.Process.Json.{Json}
use seq_input_gelf.Process.Clef
use seq_input_gelf.Process.Gelf
use seq_input_gelf.Process.Gelf.Texts.{Visit, str_message, inlinable_message}
use seq_input_gelf.Process.Str.{Owned}
use seq_input_gelf.Process.ToClef.{Given, to_clef, add}

pub record Config : Type 0 where
  pub include_raw_payload : Bool

abbrev pub default_config : Config
default_config = record { include_raw_payload = false }

pub record Process : Type 0 where
  pub include_raw_payload : Bool

-- `Process::new`, and `build`, which calls it.
abbrev pub new : Config → Process
new config = record { include_raw_payload = config.include_raw_payload }

abbrev pub build : Config → Process
build config = new config

pub data Error : Type 0 where
  -- "could not parse GELF from: {:?}", with the payload where it is at hand
  parse : Option String → Error
  -- `into_reader` or `read_to_string` fails
  read : Error

pub data Result {ℓ} (A : Type ℓ) : Type ℓ where
  ok : A → Result A
  err : Error → Result A

-- What the processor reads its message with: serde_json's parsers of bytes, of a text and of what a
-- reader gives, up to the texts that they hand to the visitors; the two conversions of bytes to UTF-8;
-- and the texts of string_cache with the capacity of inlinable_string.
pub record Parsers (Value Decimal : Type 0) : Type 1 where
  pub from_slice : Bytes → Option (Visit Value Decimal)
  pub from_text : String → Option (Visit Value Decimal)
  pub from_reader : Bytes → Option (Visit Value Decimal)
  pub from_utf8 : Bytes → Option String
  pub from_utf8_lossy : Bytes → String
  pub cached : Owned
  pub capacity : ℕ

-- An event that serializes is printed as a line; `to_string` is serde_json's, and a failure of it is
-- passed over.
unfoldable pub print : {T : Type 0} → (T → Option String) → T → List String → List String
print to_string clef lines = elim (to_string clef) [ none ↦ lines | some line ↦ lines ++ line ∷ [] ]

module _ (J : Json) where
  open J use {Value, string}

  -- The message of the bytes that lie in one piece, a `Message<Str>`.
  unfoldable pub of_bytes :
      {Decimal : Type 0}
      → Parsers Value Decimal
      → Bool
      → Bytes
      → Result (Gelf.Message Value Decimal)
  unfolding add str_message
  of_bytes p raw src = elim raw [
    | true ↦ elim (p.from_slice src) [
      | none ↦ err (parse (some (p.from_utf8_lossy src)))
      | some v ↦ ok (add J "raw_payload" (string (p.from_utf8_lossy src)) (str_message v)).0
    ]
    | false ↦ elim (p.from_slice src) [ none ↦ err (parse none) | some v ↦ ok (str_message v) ]
  ]

  -- The message of what a reader gives: `read_to_string` and `from_str`, or `from_reader`: a
  -- `Message<Inlinable<CachedString>, String>`.
  unfoldable pub of_reader :
      {Decimal : Type 0}
      → Parsers Value Decimal
      → Bool
      → Option Bytes
      → Result (Gelf.Message Value Decimal)
  unfolding add inlinable_message
  of_reader p raw none = err read
  of_reader p raw (some src) = elim raw [
    | true ↦ elim (p.from_utf8 src) [
      | none ↦ err read
      | some payload ↦ elim (p.from_text payload) [
        | none ↦ err (parse (some payload))
        | some v ↦
            ok (add J "raw_payload" (string payload) (inlinable_message p.cached p.capacity v)).0
      ]
    ]
    | false ↦ elim (p.from_reader src) [
      | none ↦ err (parse none)
      | some v ↦ ok (inlinable_message p.cached p.capacity v)
    ]
  ]

module _ (J : Json) (R : MemRead) where
  open J use {Value}

  unfoldable pub parse_message :
      {Decimal : Type 0}
      → Parsers Value Decimal
      → Bool
      → R.Carrier
      → Result (Gelf.Message Value Decimal)
  unfolding of_bytes of_reader
  parse_message p raw msg = elim (R.bytes msg) [
    | some src ↦ of_bytes J p raw src
    | none ↦ of_reader J p raw (R.into_reader msg)
  ]

  -- `Process::with_clef`, with the count of the metric `process.msg`. The callback's result is the
  -- call's.
  unfoldable pub with_clef :
      {Time Decimal A : Type 0}
      → Parsers Value Decimal
      → Given Value Time Decimal
      → (Clef.Message Value Time → Result A)
      → Process
      → ℕ
      → ℕ
      → R.Carrier
      → ℕ × Result A
  unfolding parse_message to_clef increment
  with_clef p g callback process min_level msg_count msg = (
    increment min_level msg_count,
    elim (parse_message p process.include_raw_payload msg) [
      | err e ↦ err e
      | ok m ↦ callback (to_clef J g m)
    ],
  )

  -- `Process::read_as_clef`.
  unfoldable pub read_as_clef :
      {Time Decimal : Type 0}
      → Parsers Value Decimal
      → Given Value Time Decimal
      → (Clef.Message Value Time → Option String)
      → Process
      → ℕ
      → R.Carrier
      → ℕ × List String
      → (ℕ × List String) × Result (Unit {0})
  unfolding with_clef print
  read_as_clef p g to_string process min_level msg (msg_count, lines) =
      let (n, result) =
        with_clef p g (λ clef. ok (print to_string clef lines)) process min_level msg_count msg in
      elim result [ err e ↦ ((n, lines), err e) | ok printed ↦ ((n, printed), ok tt) ]
