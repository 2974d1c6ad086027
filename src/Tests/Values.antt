-- ===== src/Tests/Values.antt =====
-- Values of JSON, and a message in GELF with an event in it.
use Prim.Native.String.{String}
use seq_input_gelf.Common.{ℕ, ◌≡◌, refl, ap, List, [], ◌∷◌, Option, none, some}
use seq_input_gelf.Process.Json.{Json}
use seq_input_gelf.Process.Clef
use seq_input_gelf.Process.Gelf
use seq_input_gelf.Process.Gelf.Texts.{Visit}
use seq_input_gelf.Process.Str.{Visited}
use mathlib.Core.Option
use seq_input_gelf.Process.ToClef.{Given}

mutual
  pub data Value : Type 0 where
    str : String → Value
    num : ℕ → Value
    obj : Fields → Value

  pub data Fields : Type 0 where
    end : Fields
    more : String → Value → Fields → Fields

unfoldable pub of_list : List (String × Value) → Fields
of_list [] = end
of_list ((k, v) ∷ rest) = more k v (of_list rest)

unfoldable pub to_list : Fields → List (String × Value)
to_list end = []
to_list (more k v rest) = (k, v) ∷ to_list rest

pub to_list-of_list : (m : List (String × Value)) → to_list (of_list m) ≡ m
unfolding to_list of_list
to_list-of_list [] = refl
to_list-of_list ((k, v) ∷ rest) =
    ap (λ (l : List (String × Value)). (k, v) ∷ l) (to_list-of_list rest)

unfoldable pub as_text : Value → Option String
as_text (str s) = some s
as_text (num n) = none
as_text (obj f) = none

unfoldable pub as_fields : Value → Option (List (String × Value))
unfolding to_list
as_fields (str s) = none
as_fields (num n) = none
as_fields (obj f) = some (to_list f)

unfoldable pub values : Json
unfolding as_text as_fields to_list of_list
values = record {
  Value = Value;
  string = str;
  number = num;
  as_str = as_text;
  as_object = as_fields;
  object = λ m. obj (of_list m);
  as_str-string = λ s. refl;
  as_object-object = λ m. ap some (to_list-of_list m);
}

-- An event in the message that has a host of its own, and a clock that says 5.
abbrev pub inner : Clef.Message values.Value ℕ
inner = record {
  timestamp = none;
  level = some "debug";
  message = some "hello";
  message_template = none;
  exception = none;
  additional = ("host", values.string "inner") ∷ [];
}

abbrev pub given : Given values.Value ℕ ℕ
given = record {
  from_str = λ s. some inner;
  parse_rfc3339 = λ s. none;
  from_decimal = λ d. some d;
  now = 5;
}

abbrev pub envelope : Gelf.Message values.Value ℕ
envelope = record {
  version = some "1.1";
  host = some "outer";
  short_message = "{}";
  full_message = none;
  timestamp = none;
  level = some 3;
  facility = some "unit";
  line = some 42;
  file = some "main.rs";
  additional = some (values.object (("_host", values.number 1) ∷ []));
}

-- How a parser hands over the texts of a message: one way for all.
abbrev pub visit :
    {V Decimal : Type 0} → (String → Visited) → Gelf.Message V Decimal → Visit V Decimal
visit lend m = record {
  version = Option.map lend m.version;
  host = Option.map lend m.host;
  short_message = lend m.short_message;
  full_message = Option.map lend m.full_message;
  timestamp = m.timestamp;
  level = m.level;
  facility = Option.map lend m.facility;
  line = m.line;
  file = Option.map lend m.file;
  additional = m.additional;
}
