-- ===== src/Process/Json.antt =====
-- The JSON values of serde_json, which the processor only passes on, as an interface.
use Prim.Native.String.{String}
use seq_input_gelf.Common.{ℕ, ◌≡◌, List, Option, some}

pub record Json : Type 1 where
  pub Value : Type 0
  -- `Value::String`, and `Value::from` on a `u32`
  pub string : String → Value
  pub number : ℕ → Value
  -- `Value::as_str`, and the entries of a `Value::Object`
  pub as_str : Value → Option String
  pub as_object : Value → Option (List (String × Value))
  -- `Value::Object` of a map
  pub object : List (String × Value) → Value
  pub as_str-string : (s : String) → as_str (string s) ≡ some s
  pub as_object-object : (m : List (String × Value)) → as_object (object m) ≡ some m
