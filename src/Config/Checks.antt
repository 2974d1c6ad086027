-- ===== src/Config/Checks.antt =====
-- What `Config::from_env` of sqelf/src/config.rs makes of any environment.
use Prim.Native.String.{String}
use text.Mathlib.Text.{◌==◌ as str_eq}
use seq_input_gelf.Common.{
  ◌≡◌, refl, true, false, none, some, arith, if◌then◌else◌, ◌⊎◌, inl, inr, ap, ◌∙◌,
}
use seq_input_gelf.Diagnostics.{Level, includes, set_min_level, to_usize, from_usize, get_min_level}
use seq_input_gelf.Server.Config.{Certificate}
use seq_input_gelf.Config.{
  Var, Result, ok, invalid, Config, default_config, var_present, var_read, is_seq_app, is_present,
  is_truthy, read_environment, read_bind, read_diagnostics, read_paths, read_certificate, from_env,
}

Result-cases : {A : Type 0} (r : Result A) → ((a : A) × (r ≡ ok a)) ⊎ (r ≡ invalid)
Result-cases (ok a) = inl (a, refl)
Result-cases invalid = inr refl

module _ (env : String → Var) where
  -- What the steps establish one after the other.
  from_env_cases :
      (P : Config → Type 0) (Q : Config → Type 0) (R : Config → Type 0)
      → ((c : Config) → read_bind env default_config ≡ ok c → P c)
      → ((b c : Config) → P b → read_diagnostics env b ≡ ok c → Q c)
      → ((b c : Config) → Q b → read_certificate env b ≡ ok c → R c)
      → (c : Config) → from_env env ≡ ok c
      → R c
  unfolding from_env
  from_env_cases P Q R p q r c h = elim (Result-cases (read_bind env default_config)) [
    | inr e ↦ absurd (ground (arith, e, h))
    | inl (b, e) ↦ elim (Result-cases (read_diagnostics env b)) [
      | inr f ↦ absurd (ground (arith, e, f, h))
      | inl (d, f) ↦ r d c (q b d (p b e) f) (ground (arith, e, f, h))
    ]
  ]

  bind_default :
      (c : Config)
      → read_bind env default_config ≡ ok c
      → (c.server.certificate ≡ none)
        × (c.process.include_raw_payload
            ≡ includes (set_min_level c.diagnostics.min_level) Level.debug)
  unfolding read_bind includes set_min_level to_usize from_usize get_min_level read_environment
  bind_default c h = ground arith

  diagnosed_certificate :
      (b c : Config)
      → b.server.certificate ≡ none
      → read_diagnostics env b ≡ ok c
      → c.server.certificate ≡ none
  unfolding read_diagnostics is_truthy
  diagnosed_certificate b c e h = ground arith

  diagnosed_raw :
      (b c : Config)
      → b.process.include_raw_payload ≡ includes (set_min_level b.diagnostics.min_level) Level.debug
      → read_diagnostics env b ≡ ok c
      → c.process.include_raw_payload ≡ includes (set_min_level c.diagnostics.min_level) Level.debug
  unfolding read_diagnostics is_truthy includes set_min_level to_usize from_usize get_min_level
  diagnosed_raw b c e h = ground arith

  certified_raw :
      (b c : Config)
      → b.process.include_raw_payload ≡ includes (set_min_level b.diagnostics.min_level) Level.debug
      → read_certificate env b ≡ ok c
      → c.process.include_raw_payload ≡ includes (set_min_level c.diagnostics.min_level) Level.debug
  unfolding read_certificate is_present read_paths read_environment
  certified_raw b c e h = ground arith

  abbrev IsNamed : Certificate → Type 0
  IsNamed cert = (str_eq cert.path "" ≡ false) × (str_eq cert.private_key_path "" ≡ false)

  read_paths-IsNamed :
      (path_var key_var : String) (cert : Certificate)
      → is_present env path_var ≡ ok true
      → read_paths env path_var key_var ≡ ok cert
      → IsNamed cert
  unfolding is_present read_paths read_environment var_present var_read
  read_paths-IsNamed path_var key_var cert here h = (ground arith, ground arith)

  abbrev path_var : String
  path_var = if is_seq_app env then "SEQ_APP_SETTING_CERTIFICATEPATH" else "GELF_CERTIFICATE_PATH"

  abbrev key_var : String
  key_var =
      if is_seq_app env
      then "SEQ_APP_SETTING_CERTIFICATEPRIVATEKEYPATH"
      else "GELF_CERTIFICATE_PRIVATE_KEY_PATH"

  certified-IsNamed :
      (b c : Config)
      → b.server.certificate ≡ none
      → read_certificate env b ≡ ok c
      → (cert : Certificate) → c.server.certificate ≡ some cert
      → IsNamed cert
  unfolding read_certificate
  certified-IsNamed b c e h cert at = elim (Result-cases (is_present env path_var)) [
    | inr f ↦ absurd (ground (arith, f, h))
    | inl (false, f) ↦ absurd (ground (arith, f, h, e, at))
    | inl (true, f) ↦ elim (Result-cases (read_paths env path_var key_var)) [
      | inr i ↦ absurd (ground (arith, f, h, i))
      | inl (paths, i) ↦
          let same : paths ≡ cert = ground (arith, f, h, i, at) in
          read_paths-IsNamed path_var key_var cert f (i ∙ ap ok same)
    ]
  ]

  -- A certificate that the environment configures has both its paths: neither is empty, since a
  -- missing private key path falls back to the certificate's.
  pub from_env-certificate :
      (c : Config) (cert : Certificate)
      → from_env env ≡ ok c
      → c.server.certificate ≡ some cert
      → (str_eq cert.path "" ≡ false) × (str_eq cert.private_key_path "" ≡ false)
  from_env-certificate c cert h at =
      from_env_cases (λ d. d.server.certificate ≡ none) (λ d. d.server.certificate ≡ none)
        (λ d. (x : Certificate) → d.server.certificate ≡ some x → IsNamed x)
        (λ d e. (bind_default d e).0) diagnosed_certificate certified-IsNamed c h cert at

  -- Whatever the environment, a configuration has raw payloads included exactly if its minimum level
  -- lets metrics be counted.
  pub from_env-raw_payload :
      (c : Config)
      → from_env env ≡ ok c
      → c.process.include_raw_payload ≡ includes (set_min_level c.diagnostics.min_level) Level.debug
  from_env-raw_payload c h =
      from_env_cases IsRaw IsRaw IsRaw (λ d e. (bind_default d e).1) diagnosed_raw certified_raw c h
    where
      IsRaw : Config → Type 0
      IsRaw d =
          d.process.include_raw_payload
          ≡ includes (set_min_level d.diagnostics.min_level) Level.debug
