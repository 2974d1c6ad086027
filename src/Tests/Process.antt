-- ===== src/Tests/Process.antt =====
-- The processor of sqelf/src/process and the configuration of sqelf/src/config.rs at concrete inputs.
use Prim.Native.String.{String}
use text.Mathlib.Text.{◌==◌ as str_eq}
use seq_input_gelf.Common.{
  ◌*◌, ◌-◌, ◌^◌, ◌<◌, ◌≡◌, refl, true, false, none, some, arith, if◌then◌else◌, string_eq,
}
use seq_input_gelf.Common.HashMap.{get}
use seq_input_gelf.Diagnostics.{includes, set_min_level, Level}
use seq_input_gelf.Process.Clef.Decimal.{value as checked, nanos}
use seq_input_gelf.Process.Clef.Decimal.Nanos.{nanos-lt}
use seq_input_gelf.Process.ToClef.{to_clef}
use seq_input_gelf.Process.ToClef.Fields.{to_clef-envelope}
use seq_input_gelf.Process.ToClef.{or_else, embedded}
use seq_input_gelf.Process.ToClef.Precedence.{
  level_of, time_of, message_of, repeated, to_clef-precedence,
}
use seq_input_gelf.Config as Configuration
use seq_input_gelf.Config.{
  Var, value, not_present, from_env, read_bind, read_diagnostics, read_certificate,
  read_environment, read_paths, is_seq_app, is_present, is_truthy, var_present, var_truthy,
  var_read, ok, default_config,
}
use seq_input_gelf.Config.Checks.{from_env-certificate, from_env-raw_payload}
use seq_input_gelf.Tests.Values.{values, given, envelope}
use seq_input_gelf.Server.Config.{Certificate, from_str}

to_clef-envelope_example :
    (get "host" (to_clef values given envelope).additional ≡ some (values.string "outer"))
    × (get "facility" (to_clef values given envelope).additional ≡ some (values.string "unit"))
    × (get "file" (to_clef values given envelope).additional ≡ some (values.string "main.rs"))
    × (get "line" (to_clef values given envelope).additional ≡ some (values.number 42))
to_clef-envelope_example =
    to_clef-envelope values given envelope "outer" "unit" "main.rs" 42 refl refl refl refl

to_clef-precedence_example :
    ((to_clef values given envelope).level
      ≡ some (level_of values (some 3) (embedded values given "{}")))
    × ((to_clef values given envelope).timestamp
        ≡ some (time_of values given none (embedded values given "{}")))
    × ((to_clef values given envelope).exception
        ≡ or_else (embedded values given "{}").exception (repeated "{}" none))
    × ((to_clef values given envelope).message ≡ message_of values (embedded values given "{}"))
    × ((to_clef values given envelope).message_template
        ≡ (embedded values given "{}").message_template)
to_clef-precedence_example = to_clef-precedence values given envelope

nanos-lt_example : (nanos 3072 4 ≡ checked (3072 * 10 ^ (9 - 4))) × (3072 * 10 ^ (9 - 4) < 10 ^ 9)
nanos-lt_example = nanos-lt 3072 4 (omega arith) (omega arith)

-- An environment with diagnostics and a certificate.
abbrev environment : String → Var
environment name =
    if str_eq name "GELF_ENABLE_DIAGNOSTICS"
    then value "True"
    else (if str_eq name "GELF_CERTIFICATE_PATH" then value "cert.pem" else not_present)

abbrev certificate : Certificate
certificate = record { path = "cert.pem"; private_key_path = "cert.pem" }

abbrev configured : Configuration.Config
configured = record {
  receive = default_config.receive;
  process = record { include_raw_payload = true };
  server = record default_config.server { certificate = some certificate };
  diagnostics = record { metrics_interval_ms = 60000; min_level = Level.debug };
}

from_environment : from_env environment ≡ ok configured
unfolding from_env read_bind read_diagnostics read_certificate read_environment read_paths
    is_seq_app is_present is_truthy var_present var_truthy var_read from_str
from_environment = refl

from_env-certificate_example :
    (str_eq certificate.path "" ≡ false) × (str_eq certificate.private_key_path "" ≡ false)
from_env-certificate_example =
    from_env-certificate environment configured certificate from_environment refl

from_env-raw_payload_example :
    configured.process.include_raw_payload
    ≡ includes (set_min_level configured.diagnostics.min_level) Level.debug
from_env-raw_payload_example = from_env-raw_payload environment configured from_environment
