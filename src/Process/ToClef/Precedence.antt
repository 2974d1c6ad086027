-- ===== src/Process/ToClef/Precedence.antt =====
-- The level, timestamp, exception and message of the event that `to_clef` makes
-- (sqelf/src/process/mod.rs).
use Prim.Native.String.{String}
use text.Mathlib.Text.{◌==◌ as str_eq}
use seq_input_gelf.Common.{
  ℕ, ◌≡◌, refl, ap, ◌∙◌, List, [], ◌∷◌, Option, none, some, if◌then◌else◌, string_eq,
}
use seq_input_gelf.Process.Json.{Json}
use seq_input_gelf.Process.Clef
use seq_input_gelf.Process.Gelf
use seq_input_gelf.Process.ToClef.{
  Given, or_default, or_else, level_name, find_first, embedded, set_level, set_timestamp,
  set_exception, set_message, to_clef,
}
use seq_input_gelf.Receive.Outcome.{and_then}

or_else-some : {A : Type 0} (o : Option A) (d : A) → or_else o (some d) ≡ some (or_default o d)
or_else-some none d = refl
or_else-some (some a) d = refl

-- A second full text is an exception, unless it repeats the short one.
unfoldable pub repeated : String → Option String → Option String
repeated short full = and_then full (λ m. if str_eq m short then none else some m)

module _ (J : Json) {Time : Type 0} where
  open J use {Value, as_str}

  -- A text among the fields of an event, under the first of the names that it has.
  abbrev pub text_at : Clef.Message Value Time → List String → Option String
  text_at e names = and_then (find_first e.additional names) as_str

  abbrev pub level_of : Option ℕ → Clef.Message Value Time → String
  level_of level e =
      or_default e.level
        (or_default (text_at e ("level" ∷ "lvl" ∷ "LVL" ∷ [])) (level_name (or_default level 6)))

  abbrev pub message_of : Clef.Message Value Time → Option String
  message_of e = or_else e.message (elim e.message_template [
    | some t ↦ none
    | none ↦ text_at e ("message" ∷ "msg" ∷ "MSG" ∷ [])
  ])

  set_level_lem :
      (level : Option ℕ) (e : Clef.Message Value Time)
      → set_level J level e ≡ record e { level = some (level_of level e) }
  unfolding set_level
  set_level_lem level e = go e.level
    where
      go :
          (o : Option String)
          → set_level J level (record e { level = o })
            ≡ record e { level = some (level_of level (record e { level = o })) }
      go none = refl
      go (some l) = refl

  set_exception_lem :
      (short : String) (full : Option String) (e : Clef.Message Value Time)
      → set_exception J short full e
        ≡ record e { exception = or_else e.exception (repeated short full) }
  unfolding set_exception repeated
  set_exception_lem short full e = go e.exception
    where
      go :
          (o : Option String)
          → set_exception J short full (record e { exception = o })
            ≡ record e { exception = or_else o (repeated short full) }
      go none = refl
      go (some l) = refl

  set_message_lem :
      (e : Clef.Message Value Time) → set_message J e ≡ record e { message = message_of e }
  unfolding set_message
  set_message_lem e = go e.message e.message_template
    where
      go :
          (o p : Option String)
          → set_message J (record e { message = o; message_template = p }) ≡ record e {
            message = message_of (record e { message = o; message_template = p });
            message_template = p;
          }
      go none none = refl
      go none (some t) = refl
      go (some l) p = refl

module _ (J : Json) {Time Decimal : Type 0} (g : Given J.Value Time Decimal) where
  open J use {Value}

  abbrev pub time_of : Option Decimal → Clef.Message Value Time → Time
  time_of timestamp e = or_default e.timestamp (
      or_default
        (and_then (text_at J e ("timestamp" ∷ "ts" ∷ "TIMESTAMP" ∷ "TS" ∷ [])) g.parse_rfc3339)
        (or_default (and_then timestamp g.from_decimal) g.now))

  set_timestamp_lem :
      (timestamp : Option Decimal) (e : Clef.Message Value Time)
      → set_timestamp J g timestamp e ≡ record e { timestamp = some (time_of timestamp e) }
  unfolding set_timestamp
  set_timestamp_lem timestamp e = go e.timestamp
    where
      found : Option Time
      found = and_then (text_at J e ("timestamp" ∷ "ts" ∷ "TIMESTAMP" ∷ "TS" ∷ [])) g.parse_rfc3339

      go :
          (o : Option Time)
          → set_timestamp J g timestamp (record e { timestamp = o })
            ≡ record e { timestamp = some (time_of timestamp (record e { timestamp = o })) }
      go none =
          ap (λ (x : Option Time). record e { timestamp = x })
            (ap (or_else found) (or_else-some (and_then timestamp g.from_decimal) g.now)
              ∙ or_else-some found (or_default (and_then timestamp g.from_decimal) g.now))
      go (some l) = refl

  -- The event of any GELF message has a level and a time. Its level and its time are those of the
  -- embedded event, else those that a field of the embedded event gives as a text, else the
  -- envelope's, else the default level and the clock's time. Its exception is that of the embedded
  -- event, else the envelope's full message unless that repeats the short one. Its message is that
  -- of the embedded event, else, where that has no message template, a text among its fields. Its
  -- message template is that of the embedded event.
  pub to_clef-precedence :
      (m : Gelf.Message Value Decimal)
      → ((to_clef J g m).level ≡ some (level_of J m.level (embedded J g m.short_message)))
        × ((to_clef J g m).timestamp ≡ some (time_of m.timestamp (embedded J g m.short_message)))
        × ((to_clef J g m).exception
            ≡ or_else
                (embedded J g m.short_message).exception
                (repeated m.short_message m.full_message))
        × ((to_clef J g m).message ≡ message_of J (embedded J g m.short_message))
        × ((to_clef J g m).message_template ≡ (embedded J g m.short_message).message_template)
  unfolding to_clef
  to_clef-precedence m = (
    ap (λ (x : Clef.Message Value Time). x.level) whole,
    ap (λ (x : Clef.Message Value Time). x.timestamp) whole,
    ap (λ (x : Clef.Message Value Time). x.exception) whole,
    ap (λ (x : Clef.Message Value Time). x.message) whole,
    ap (λ (x : Clef.Message Value Time). x.message_template) whole,
  )
    where
      e : Clef.Message Value Time
      e = embedded J g m.short_message

      e1 : Clef.Message Value Time
      e1 = record e { level = some (level_of J m.level e) }

      e2 : Clef.Message Value Time
      e2 = record e1 { timestamp = some (time_of m.timestamp e) }

      e3 : Clef.Message Value Time
      e3 = record e2 { exception = or_else e.exception (repeated m.short_message m.full_message) }

      whole :
          set_message J (
            set_exception J m.short_message m.full_message
              (set_timestamp J g m.timestamp (set_level J m.level e)))
          ≡ record e3 { message = message_of J e }
      whole =
          ap
            (λ (x : Clef.Message Value Time).
              set_message J
                (set_exception J m.short_message m.full_message (set_timestamp J g m.timestamp x)))
            (set_level_lem J m.level e)
          ∙ ap
              (λ (x : Clef.Message Value Time).
                set_message J (set_exception J m.short_message m.full_message x))
              (set_timestamp_lem m.timestamp e1)
          ∙ ap (set_message J) (set_exception_lem J m.short_message m.full_message e2)
          ∙ set_message_lem J e3
