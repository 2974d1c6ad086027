-- ===== src/Process/Clef/Timestamp.antt =====
-- How a `Timestamp` of sqelf/src/process/clef.rs is read and written. The functions of humantime are a
-- parameter.
use Prim.Native.String.{String}
use seq_input_gelf.Common.{◌≡◌, ap, ◌∙◌, Option, some}
use seq_input_gelf.Process.Str.{Visited, text_of}

pub record Humantime : Type 1 where
  pub SystemTime : Type 0
  pub parse_rfc3339 : String → Option SystemTime
  pub format_rfc3339 : SystemTime → String

module _ (H : Humantime) where
  open H use {SystemTime, parse_rfc3339, format_rfc3339}

  -- `Timestamp::try_parse_rfc3339`.
  unfoldable pub try_parse_rfc3339 : String → Option SystemTime
  try_parse_rfc3339 ts = parse_rfc3339 ts

  -- `Serialize::serialize`, over the serializer's `collect_str`.
  unfoldable pub serialize : {R : Type 0} → (String → R) → SystemTime → R
  serialize collect_str ts = collect_str (format_rfc3339 ts)

  -- `Deserialize::deserialize`: `visit_str`, which the visitor's other methods come to.
  unfoldable pub deserialize : Visited → Option SystemTime
  deserialize v = parse_rfc3339 (text_of v)

  -- A time that humantime reads back is read back from what it is written as, however the
  -- deserializer holds the text, and so it is where a field of an event is parsed.
  pub deserialize-serialize :
      (ts : SystemTime) (v : Visited)
      → parse_rfc3339 (format_rfc3339 ts) ≡ some ts
      → text_of v ≡ serialize (λ s. s) ts
      → (deserialize v ≡ some ts) × (try_parse_rfc3339 (text_of v) ≡ some ts)
  unfolding serialize deserialize try_parse_rfc3339
  deserialize-serialize ts v kept e = let p = ap parse_rfc3339 e ∙ kept in (p, p)
