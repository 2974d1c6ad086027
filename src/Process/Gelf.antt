-- ===== src/Process/Gelf.antt =====
-- sqelf/src/process/gelf.rs: a GELF message as it is parsed.
pub mod Texts
use Prim.Native.String.{String}
use seq_input_gelf.Common.{ℕ, Option}

pub record Message (Value Decimal : Type 0) : Type 0 where
  pub version : Option String
  pub host : Option String
  pub short_message : String
  pub full_message : Option String
  pub timestamp : Option Decimal
  pub level : Option ℕ
  pub facility : Option String
  pub line : Option ℕ
  pub file : Option String
  pub additional : Option Value
