-- ===== src/Tests/Unit/Process.antt =====
-- The unit tests of sqelf/src/process/mod.rs. What serde_json, humantime and rust_decimal make of the
-- texts of a test is written out.
use Prim.Native.String.{String}
use text.Mathlib.Text.{◌==◌ as str_eq}
use seq_input_gelf.Common.{◌≡◌, refl, true, List, [], ◌∷◌, ◌++◌, Option, none, some, if◌then◌else◌}
use seq_input_gelf.Common.HashMap
use seq_input_gelf.Io.{slices}
use seq_input_gelf.Process.Clef
use seq_input_gelf.Process.Gelf
use seq_input_gelf.Process.Run
use seq_input_gelf.Process.Run.{
  Parsers, Process, Result, ok, err, build, with_clef, parse_message, of_bytes,
}
use seq_input_gelf.Process.ToClef.{Given}
use seq_input_gelf.Tests.Values.{values, visit}
use mathlib.Core.Option
use seq_input_gelf.Process.Str
use seq_input_gelf.Process.Str.{borrowed_str}

abbrev string : String → values.Value
string = values.string

-- Timestamps are texts; the two decimals of the tests are read as their times.
abbrev given : Clef.Message values.Value String → Given values.Value String String
given inner = record {
  from_str = λ s. some inner;
  parse_rfc3339 = λ s. some s;
  from_decimal = λ d. some (
      if str_eq d "1385053862.3072"
      then "2013-11-21T17:11:02.307200000Z"
      else "2013-11-21T17:11:02.047360000Z");
  now = "now";
}

-- Parsers of one text, which is a GELF message or not.
abbrev parsers : String → Option (Gelf.Message values.Value String) → Parsers values.Value String
parsers text gelf = record {
  from_slice = λ src. Option.map (visit borrowed_str) gelf;
  from_text = λ s. Option.map (visit borrowed_str) gelf;
  from_reader = λ src. Option.map (visit Str.str) gelf;
  from_utf8 = λ src. some text;
  from_utf8_lossy = λ src. text;
  cached = Str.string;
  capacity = 30;
}

abbrev event :
    Clef.Message values.Value String
    → Run.Config
    → String
    → Option (Gelf.Message values.Value String)
    → Result (Clef.Message values.Value String)
event inner config text gelf =
    (with_clef values slices (parsers text gelf) (given inner) (λ clef. ok clef) (build config) 0 0
      []).1

abbrev no_event : Clef.Message values.Value String
no_event = Clef.from_message ""

abbrev raw : Run.Config
raw = record { include_raw_payload = true }

-- The names that both kinds of GELF message of the tests share, with those of the container.
abbrev user_fields : List (String × values.Value)
user_fields =
    ("_user_id", values.number 9001)
    ∷ ("_some_info", string "foo")
    ∷ ("_some_env_var", string "bar")
    ∷ []

abbrev gelf_of :
    String
    → Option String
    → Option String
    → List (String × values.Value)
    → Gelf.Message values.Value String
gelf_of short full timestamp fields = record {
  version = some "1.1";
  host = some "example.org";
  short_message = short;
  full_message = full;
  timestamp = timestamp;
  level = some 1;
  facility = none;
  line = none;
  file = none;
  additional = some (values.object fields);
}

abbrev example : Option String → Gelf.Message values.Value String
example timestamp =
    gelf_of "A short message that helps you identify what is going on" (some "Backtrace here")
      timestamp user_fields

abbrev from_gelf_msg : Result (Clef.Message values.Value String)
from_gelf_msg = event no_event Run.default_config "…" (some (example (some "1385053862.3072")))

-- The event embedded in a short message, which serde_json reads as this.
abbrev templated : Clef.Message values.Value String
templated = record {
  timestamp = some "2013-11-21T17:11:02Z";
  level = some "info";
  message = none;
  message_template = some "A short message that helps {user_id} identify what is going on";
  exception = some "Backtrace here";
  additional = ("user_id", values.number 4000) ∷ [];
}

abbrev from_gelf_inner_json : Result (Clef.Message values.Value String)
from_gelf_inner_json = event templated Run.default_config "…" (
    some (
      gelf_of "{…}" none none (
        ("_user_id", values.number 9001)
        ∷ ("_some_info", string "foo")
        ∷ ("_some_env_var", string "bar")
        ∷ ("_container_id", string "abcdefghijklmnopqrstuv")
        ∷ ("_command", string "run")
        ∷ ("_container_name", string "test-container")
        ∷ ("_image_name", string "test/image")
        ∷ ("_image_id", string "abcdefghijklmnopqrstuv")
        ∷ ("_tag", string "latest")
        ∷ [])))

-- The embedded fields of the next test, none of which is a field of the event's own.
abbrev fallbacks : List (String × values.Value)
fallbacks =
    ("level", string "error")
    ∷ ("message", string "A short message that helps {user_id} identify what is going on")
    ∷ ("timestamp", string "2022-06-21T17:11:02.307200000Z")
    ∷ []

abbrev plain : List (String × values.Value) → Clef.Message values.Value String
plain fields = record {
  timestamp = none;
  level = none;
  message = none;
  message_template = none;
  exception = none;
  additional = fields;
}

abbrev from_gelf_inner_json_fallback : Result (Clef.Message values.Value String)
from_gelf_inner_json_fallback = event (plain fallbacks) Run.default_config "…" (
    some (record (gelf_of "{…}" none (some "1385053862.3072") []) {
      level = some 6;
      additional = none;
    }))

abbrev include_raw_payload : Result (Clef.Message values.Value String)
include_raw_payload = event no_event raw "the payload" (some (example (some "1385053862.04736")))

abbrev invalid_json : Result (Clef.Message values.Value String)
invalid_json = event no_event raw "this is definitely not json" none

abbrev non_utf8_input : Result (Clef.Message values.Value String)
non_utf8_input = event no_event raw "�" none

-- The event that two of the tests expect, with its fields.
abbrev expected : String → List (String × values.Value) → Clef.Message values.Value String
expected timestamp fields = record {
  timestamp = some timestamp;
  level = some "alert";
  message = some "A short message that helps you identify what is going on";
  message_template = none;
  exception = some "Backtrace here";
  additional = fields;
}

-- Each test has the result its assertion asks for.
all_pass :
    (from_gelf_msg
      ≡ ok (
          expected "2013-11-21T17:11:02.307200000Z" (
            ("user_id", values.number 9001)
            ∷ ("some_info", string "foo")
            ∷ ("some_env_var", string "bar")
            ∷ ("host", string "example.org")
            ∷ [])))
    × (from_gelf_inner_json
        ≡ ok (record templated {
          additional =
              ("user_id", values.number 9001)
              ∷ ("__user_id", values.number 4000)
              ∷ ("some_info", string "foo")
              ∷ ("some_env_var", string "bar")
              ∷ ("container_id", string "abcdefghijklmnopqrstuv")
              ∷ ("command", string "run")
              ∷ ("container_name", string "test-container")
              ∷ ("image_name", string "test/image")
              ∷ ("image_id", string "abcdefghijklmnopqrstuv")
              ∷ ("tag", string "latest")
              ∷ ("host", string "example.org")
              ∷ [];
        }))
    × (from_gelf_inner_json_fallback
        ≡ ok (record (plain (fallbacks ++ ("host", string "example.org") ∷ [])) {
          timestamp = some "2022-06-21T17:11:02.307200000Z";
          level = some "error";
          message = some "A short message that helps {user_id} identify what is going on";
        }))
    × (include_raw_payload
        ≡ ok (
            expected "2013-11-21T17:11:02.047360000Z" (
              ("user_id", values.number 9001)
              ∷ ("some_info", string "foo")
              ∷ ("some_env_var", string "bar")
              ∷ ("raw_payload", string "the payload")
              ∷ ("host", string "example.org")
              ∷ [])))
    × (invalid_json ≡ err (Run.parse (some "this is definitely not json")))
    × (non_utf8_input ≡ err (Run.parse (some "�")))
unfolding with_clef Clef.starts_with_brace HashMap.get values HashMap.insert
all_pass = (refl, refl, refl, refl, refl, refl)
