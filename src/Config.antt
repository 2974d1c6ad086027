-- ===== src/Config.antt =====
-- sqelf/src/config.rs: the configuration that the environment gives. The environment is a parameter: a
-- function from names to the results of `env::var`.
pub mod Checks
use Prim.Native.String.{String}
use text.Mathlib.Text.{◌==◌ as str_eq}
use seq_input_gelf.Common.{ℕ, ◌*◌, Bool, true, false, ◌||◌, Option, none, some, if◌then◌else◌}
use seq_input_gelf.Diagnostics.{Level}
use seq_input_gelf.Receive.Gelf
use seq_input_gelf.Process.Run
use seq_input_gelf.Server.Config as Server
use seq_input_gelf.Server.Config.{Bind, Certificate, from_str}

-- `Result<String, VarError>`.
pub data Var : Type 0 where
  value : String → Var
  not_present : Var
  not_unicode : Var

-- The results of this module: the only error is that of a variable which is not valid Unicode.
pub data Result {ℓ} (A : Type ℓ) : Type ℓ where
  ok : A → Result A
  invalid : Result A

pub record Diagnostics : Type 0 where
  pub metrics_interval_ms : ℕ
  pub min_level : Level

pub record Config : Type 0 where
  pub receive : Gelf.Config
  pub process : Run.Config
  pub server : Server.Config
  pub diagnostics : Diagnostics

-- `Config::default`.
abbrev pub default_config : Config
default_config = record {
  receive = Gelf.default_config;
  process = Run.default_config;
  server = Server.default_config;
  diagnostics = record { metrics_interval_ms = 1 * 1000 * 60; min_level = Level.error };
}

-- A result of `env::var`, judged by `is_present`.
unfoldable pub var_present : Var → Result Bool
var_present (value v) = ok (if str_eq v "" then false else true)
var_present not_present = ok false
var_present not_unicode = invalid

unfoldable pub var_truthy : Var → Result Bool
var_truthy (value v) = ok (str_eq v "True" || str_eq v "true")
var_truthy not_present = ok false
var_truthy not_unicode = invalid

-- `read_environment`, for a type whose `from_str` does not fail.
unfoldable pub var_read : {T : Type 0} → (String → T) → T → Var → Result T
var_read from_str into (value v) = ok (if str_eq v "" then into else from_str v)
var_read from_str into not_present = ok into
var_read from_str into not_unicode = invalid

module _ (env : String → Var) where
  -- `env::var("SEQ_APP_ID").is_ok()`.
  unfoldable pub is_seq_app : Bool
  is_seq_app = elim (env "SEQ_APP_ID") [
    | value _ ↦ true
    | not_present ↦ false
    | not_unicode ↦ false
  ]

  unfoldable pub is_present : String → Result Bool
  unfolding var_present
  is_present name = var_present (env name)

  unfoldable pub is_truthy : String → Result Bool
  unfolding var_truthy
  is_truthy name = var_truthy (env name)

  unfoldable pub read_environment : {T : Type 0} → (String → T) → T → String → Result T
  unfolding var_read
  read_environment from_str into name = var_read from_str into (env name)

  unfoldable pub read_bind : Config → Result Config
  unfolding read_environment is_seq_app from_str
  read_bind config =
      let bind_address_var = if is_seq_app then "SEQ_APP_SETTING_GELFADDRESS" else "GELF_ADDRESS" in
      elim (read_environment from_str config.server.bind bind_address_var) [
        | invalid ↦ invalid
        | ok bind ↦ ok (record config { server = record config.server { bind = bind } })
      ]

  unfoldable pub read_diagnostics : Config → Result Config
  unfolding is_truthy is_seq_app
  read_diagnostics config =
      let enable_diagnostics =
        if is_seq_app then "SEQ_APP_SETTING_ENABLEDIAGNOSTICS" else "GELF_ENABLE_DIAGNOSTICS" in
      elim (is_truthy enable_diagnostics) [
        | invalid ↦ invalid
        | ok false ↦ ok config
        | ok true ↦ ok (record config {
          diagnostics = record config.diagnostics { min_level = Level.debug };
          process = record { include_raw_payload = true };
        })
      ]

  -- The two paths, read into an empty certificate.
  unfoldable pub read_paths : String → String → Result Certificate
  unfolding read_environment
  read_paths path_var private_key_path_var = elim (read_environment (λ s. s) "" path_var) [
    | invalid ↦ invalid
    | ok path ↦ elim (read_environment (λ s. s) "" private_key_path_var) [
      | invalid ↦ invalid
      | ok private_key_path ↦ ok (record {
        path = path;
        private_key_path = if str_eq private_key_path "" then path else private_key_path;
      })
    ]
  ]

  unfoldable pub read_certificate : Config → Result Config
  unfolding is_present read_paths is_seq_app
  read_certificate config =
      let certificate_path_var =
        if is_seq_app then "SEQ_APP_SETTING_CERTIFICATEPATH" else "GELF_CERTIFICATE_PATH" in
      let certificate_private_key_path_var =
        if is_seq_app
        then "SEQ_APP_SETTING_CERTIFICATEPRIVATEKEYPATH"
        else "GELF_CERTIFICATE_PRIVATE_KEY_PATH" in
      elim (is_present certificate_path_var) [
        | invalid ↦ invalid
        | ok false ↦ ok config
        | ok true ↦ elim (read_paths certificate_path_var certificate_private_key_path_var) [
          | invalid ↦ invalid
          | ok certificate ↦
              ok
                (record config { server = record config.server { certificate = some certificate } })
        ]
      ]

  -- `Config::from_env`.
  unfoldable pub from_env : Result Config
  unfolding read_bind read_diagnostics read_certificate
  from_env = elim (read_bind default_config) [
    | invalid ↦ invalid
    | ok bound ↦ elim (read_diagnostics bound) [
      | invalid ↦ invalid
      | ok diagnosed ↦ read_certificate diagnosed
    ]
  ]
