-- ===== src/Process/Clef.antt =====
-- sqelf/src/process/clef.rs: the event that goes to Seq, and its timestamp. `Str` is read through
-- `as_ref` wherever it is compared or hashed, so a text stands for it.
pub mod Decimal
pub mod Timestamp
use Prim.Native.String.{String}
use Prim.Native.Char.{code}
use seq_input_gelf.Common.{ℕ, Bool, true, false, List, [], Option, none, some, ◌==◌, if◌then◌else◌}

pub record Message (Value Timestamp : Type 0) : Type 0 where
  pub timestamp : Option Timestamp
  pub level : Option String
  pub message : Option String
  pub message_template : Option String
  pub exception : Option String
  pub additional : List (String × Value)

-- `Message::from_message`: a plain text is the message.
unfoldable pub from_message : {V T : Type 0} → String → Message V T
from_message msg = record {
  timestamp = none;
  level = none;
  message = some msg;
  message_template = none;
  exception = none;
  additional = [];
}

-- `json.chars().next() == Some('{')`.
unfoldable pub starts_with_brace : String → Bool
starts_with_brace String.[] = false
starts_with_brace (String.◌∷◌ c s) = code c == 0x7b

-- `Message::maybe_from_json`; `from_str` is serde_json's parser.
unfoldable pub maybe_from_json :
    {V T : Type 0} → (String → Option (Message V T)) → String → Option (Message V T)
maybe_from_json from_str json = if starts_with_brace json then from_str json else none
