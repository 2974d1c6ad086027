-- ===== src/Process/ToClef.antt =====
-- `to_clef` of sqelf/src/process/mod.rs, with its helpers: the embedded CLEF, the GELF envelope and
-- their order of precedence. The parsers, the clock and the decimals are parameters.
pub mod Fields
pub mod Precedence
use Prim.Native.String.{String}
use Prim.Native.Char.{Char, code}
use text.Mathlib.Text.{◌==◌ as str_eq}
use seq_input_gelf.Common.{
  ℕ, zero, suc, Bool, true, false, List, [], ◌∷◌, Option, none, some, ◌==◌, if◌then◌else◌,
  string_eq,
}
use seq_input_gelf.Common.HashMap
use seq_input_gelf.Process.Json.{Json}
use seq_input_gelf.Process.Clef
use seq_input_gelf.Process.Gelf
use seq_input_gelf.Receive.Outcome.{and_then}

-- `unwrap_or`.
abbrev pub or_default {ℓ} : {A : Type ℓ} → Option A → A → A
or_default none d = d
or_default (some a) d = a

-- `or_else`, to a value.
abbrev pub or_else {ℓ} : {A : Type ℓ} → Option A → Option A → Option A
or_else none b = b
or_else (some a) b = some a

-- The names of the Syslog levels.
unfoldable pub level_name : ℕ → String
level_name n =
    if n == 0
    then "emerg"
    else (if n == 1
        then "alert"
        else (if n == 2
            then "crit"
            else (if n == 3
                then "err"
                else (if n == 4
                    then "warning"
                    else (if n == 5 then "notice" else (if n == 6 then "info" else "debug"))))))

-- `format!("__{}", name)`.
unfoldable pub underscored : String → String
underscored name = String.◌∷◌ "_" (String.◌∷◌ "_" name)

-- The names of additional GELF fields are given without their first underscore.
unfoldable pub strip_underscore : String → String
strip_underscore String.[] = String.[]
strip_underscore (String.◌∷◌ c s) = if code c == 0x5f then s else String.◌∷◌ c s

module _ {V : Type 0} where
  -- `find_first`.
  unfoldable pub find_first : List (String × V) → List String → Option V
  find_first fields [] = none
  find_first fields (name ∷ names) = or_else (HashMap.get name fields) (find_first fields names)

  -- `override_value`: what was there before is kept under a longer name.
  unfoldable pub override_value : List (String × V) → String → V → List (String × V)
  unfolding underscored
  override_value fields name value = elim (HashMap.get name fields) [
    | none ↦ HashMap.insert name value fields
    | some old ↦ HashMap.insert (underscored name) old (HashMap.insert name value fields)
  ]

  -- The loop over the additional fields of the envelope.
  unfoldable pub override_all : List (String × V) → List (String × V) → List (String × V)
  unfolding override_value
  override_all fields [] = fields
  override_all fields ((k, v) ∷ rest) = override_all (override_value fields k v) rest

  -- A built-in field that the envelope may have.
  unfoldable pub override_some : List (String × V) → String → Option V → List (String × V)
  unfolding override_value
  override_some fields name none = fields
  override_some fields name (some v) = override_value fields name v

-- The parsers of serde_json and humantime, `Timestamp::from_decimal` and the clock's reading.
pub record Given (Value Time Decimal : Type 0) : Type 0 where
  pub from_str : String → Option (Clef.Message Value Time)
  pub parse_rfc3339 : String → Option Time
  pub from_decimal : Decimal → Option Time
  pub now : Time

module _ (J : Json) where
  open J use {Value, string, number, as_str, as_object}

  -- The embedded CLEF, or a plain message.
  unfoldable pub embedded :
      {Time Decimal : Type 0} → Given Value Time Decimal → String → Clef.Message Value Time
  unfolding Clef.maybe_from_json Clef.from_message
  embedded g short = or_default (Clef.maybe_from_json g.from_str short) (Clef.from_message short)

  unfoldable pub set_level :
      {Time : Type 0} → Option ℕ → Clef.Message Value Time → Clef.Message Value Time
  unfolding find_first level_name
  set_level level clef = elim clef.level [
    | some l ↦ clef
    | none ↦ record clef {
      level = some (
          or_default (and_then (find_first clef.additional ("level" ∷ "lvl" ∷ "LVL" ∷ [])) as_str)
            (level_name (or_default level 6)));
    }
  ]

  unfoldable pub set_timestamp :
      {Time Decimal : Type 0}
      → Given Value Time Decimal
      → Option Decimal
      → Clef.Message Value Time
      → Clef.Message Value Time
  unfolding find_first
  set_timestamp g timestamp clef = elim clef.timestamp [
    | some t ↦ clef
    | none ↦ record clef {
      timestamp =
          or_else
            (and_then
              (and_then (find_first clef.additional ("timestamp" ∷ "ts" ∷ "TIMESTAMP" ∷ "TS" ∷ []))
                as_str)
              g.parse_rfc3339)
            (or_else (and_then timestamp g.from_decimal) (some g.now));
    }
  ]

  unfoldable pub set_exception :
      {Time : Type 0} → String → Option String → Clef.Message Value Time → Clef.Message Value Time
  set_exception short full clef = elim clef.exception [
    | some e ↦ clef
    | none ↦ record clef {
      exception = and_then full (λ m. if str_eq m short then none else some m);
    }
  ]

  unfoldable pub set_message : {Time : Type 0} → Clef.Message Value Time → Clef.Message Value Time
  unfolding find_first
  set_message clef = elim clef.message [
    | some m ↦ clef
    | none ↦ elim clef.message_template [
      | some t ↦ clef
      | none ↦ record clef {
        message = and_then (find_first clef.additional ("message" ∷ "msg" ∷ "MSG" ∷ [])) as_str;
      }
    ]
  ]

  -- `additional`: the fields of the envelope's object, with their names as they are passed on.
  unfoldable pub stripped : List (String × Value) → List (String × Value)
  unfolding strip_underscore
  stripped [] = []
  stripped ((k, v) ∷ rest) = (strip_underscore k, v) ∷ stripped rest

  unfoldable pub additional : Option Value → List (String × Value)
  unfolding stripped
  additional value = elim (and_then value as_object) [ none ↦ [] | some fields ↦ stripped fields ]

  -- The fields of the event: those of the embedded CLEF, overridden by the envelope's.
  unfoldable pub fields_of :
      {Decimal : Type 0}
      → Gelf.Message Value Decimal
      → List (String × Value)
      → List (String × Value)
  unfolding override_all override_some additional
  fields_of m fields =
      let with_additional = override_all fields (additional m.additional) in
      let with_host =
        override_some with_additional "host" (and_then m.host (λ s. some (string s))) in
      let with_facility =
        override_some with_host "facility" (and_then m.facility (λ s. some (string s))) in
      let with_file = override_some with_facility "file" (and_then m.file (λ s. some (string s))) in
      override_some with_file "line" (and_then m.line (λ n. some (number n)))

  -- `gelf::Message::to_clef`.
  unfoldable pub to_clef :
      {Time Decimal : Type 0}
      → Given Value Time Decimal
      → Gelf.Message Value Decimal
      → Clef.Message Value Time
  unfolding embedded set_level set_timestamp set_exception set_message fields_of
  to_clef g m =
      let clef = set_message (
        set_exception m.short_message m.full_message
          (set_timestamp g m.timestamp (set_level m.level (embedded g m.short_message)))) in
      record clef { additional = fields_of m clef.additional }

  -- `add`: a field of the envelope that is not there yet.
  unfoldable pub add :
      {Decimal : Type 0}
      → String
      → Value
      → Gelf.Message Value Decimal
      → Gelf.Message Value Decimal × Bool
  add k v m = elim (and_then m.additional as_object) [
    | none ↦ (m, false)
    | some fields ↦ elim (HashMap.get k fields) [
      | some _ ↦ (m, false)
      | none ↦ (record m { additional = some (J.object (HashMap.insert k v fields)) }, true)
    ]
  ]
