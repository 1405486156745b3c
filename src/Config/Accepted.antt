-- ===== src/Config/Accepted.antt =====
-- Which configurations are loaded: every setting is in its bounds, and what telemetry and production
-- need is there.
use chain_application.Prelude.{
  ℕ, ◌*◌, ◌≡◌, ◌↔◌, ◌⊎◌, ◌≤◌, inl, inr, arith, Bytes, List, [], ◌∷◌, Bool, true, false, Option,
  none, refl, bytes_equal, if◌then◌else◌, some, ok, Option-cases, bytes_equal_iff, ℤ, pos,
  at_most_int, Floats,
}
use chain_application.Config.{
  is_one_of, lookup_or_default, load_port, load_log_level, load_shutdown_timeout,
  load_trace_sample_ratio, load_deployment_environment, load_enabled, Parsing,
}
use chain_application.Config.Variables.{
  environment_port, environment_log_level, environment_shutdown_timeout,
  environment_telemetry_enabled, environment_trace_sample_ratio, environment_deployment_environment,
  default_port, default_log_level, default_shutdown_timeout, default_telemetry_enabled,
  default_trace_sample_ratio, default_deployment_environment, second, log_levels,
  deployment_environments,
}

abbrev pub IsOneOf : Bytes → List Bytes → Type 0
IsOneOf v [] = ⊥
IsOneOf v (w ∷ ws) = (v ≡ w) ⊎ IsOneOf v ws

is_one_of_iff : (v : Bytes) (ws : List Bytes) → (is_one_of v ws ≡ true) ↔ IsOneOf v ws
is_one_of_iff v [] = ground arith
is_one_of_iff v (w ∷ ws) = ground (arith, bytes_equal_iff v w, is_one_of_iff v ws)

module _ (floats : Floats) (parsing : Parsing floats.Float) (lookup : Bytes → Option Bytes) where
  open floats use {Float, literal, less}

  -- A value without the space around it, where one is left.
  abbrev pub given_or : Bytes → Bytes → Bytes
  given_or default [] = default
  given_or default (b ∷ bs) = b ∷ bs

  abbrev pub value_or : Bytes → Option Bytes → Bytes
  value_or default none = default
  value_or default (some value) = given_or default (parsing.trim_space value)

  unless_blank :
      (default text : Bytes)
      → (if bytes_equal text [] then default else text) ≡ given_or default text
  unfolding bytes_equal
  unless_blank default [] = refl
  unless_blank default (b ∷ bs) = refl

  -- What the environment says for a variable, or the default for one that is not set or is blank.
  abbrev pub setting : Bytes → Bytes → Bytes
  setting key default = value_or default (lookup key)

  pub lookup_or_default-setting :
      (key default : Bytes)
      → lookup_or_default floats parsing lookup key default ≡ setting key default
  unfolding lookup_or_default
  lookup_or_default-setting key default = elim (Option-cases (lookup key)) [
    | inl missing ↦ rw (lookup_or_default, missing) refl
    | inr (value, found) ↦
        rw (lookup_or_default, found) (unless_blank default (parsing.trim_space value))
  ]

  abbrev pub IsPort : ℕ → Type 0
  IsPort port =
      (parsing.parse_uint (setting environment_port default_port) 10 16 ≡ some port)
      × (1 ≤ port)
      × (port ≤ 65535)

  abbrev pub IsLogLevel : Bytes → Type 0
  IsLogLevel level =
      (level ≡ setting environment_log_level default_log_level) × IsOneOf level log_levels

  abbrev pub IsTimeout : ℤ → Type 0
  IsTimeout timeout =
      (parsing.parse_duration (setting environment_shutdown_timeout default_shutdown_timeout)
        ≡ some timeout)
      × (at_most_int timeout (pos second) ≡ false)
      × (at_most_int timeout (pos (9 * second)) ≡ true)

  abbrev pub IsRatio : Float → Type 0
  IsRatio ratio =
      (parsing.parse_float (setting environment_trace_sample_ratio default_trace_sample_ratio) 64
        ≡ some ratio)
      × (parsing.is_nan ratio ≡ false)
      × (parsing.is_inf ratio ≡ false)
      × (less ratio (literal 0 0) ≡ false)
      × (less (literal 1 0) ratio ≡ false)

  abbrev pub IsEnvironment : Bytes → Type 0
  IsEnvironment environment =
      (environment ≡ setting environment_deployment_environment default_deployment_environment)
      × IsOneOf environment deployment_environments

  pub load_port_iff : (port : ℕ) → (load_port floats parsing lookup ≡ ok port) ↔ IsPort port
  unfolding load_port
  load_port_iff port =
      rw (load_port, lookup_or_default-setting environment_port default_port)
        (elim (Option-cases (parsing.parse_uint (setting environment_port default_port) 10 16)) [
          | inl missing ↦ rw missing (ground arith)
          | inr (n, found) ↦ rw found (ground arith)
        ])

  pub load_log_level_iff :
      (level : Bytes) → (load_log_level floats parsing lookup ≡ ok level) ↔ IsLogLevel level
  unfolding load_log_level
  load_log_level_iff level =
      rw (lookup_or_default-setting environment_log_level default_log_level)
        (ground (arith, is_one_of_iff (setting environment_log_level default_log_level) log_levels))

  pub load_shutdown_timeout_iff :
      (timeout : ℤ) → (load_shutdown_timeout floats parsing lookup ≡ ok timeout) ↔ IsTimeout timeout
  unfolding load_shutdown_timeout
  load_shutdown_timeout_iff timeout =
      rw
        (
          load_shutdown_timeout,
          lookup_or_default-setting environment_shutdown_timeout default_shutdown_timeout,
        )
        (elim (Option-cases (
          parsing.parse_duration (setting environment_shutdown_timeout default_shutdown_timeout))) [
            | inl missing ↦ rw missing (ground arith)
            | inr (n, found) ↦ rw found (ground arith)
          ])

  pub load_trace_sample_ratio_iff :
      (ratio : Float) → (load_trace_sample_ratio floats parsing lookup ≡ ok ratio) ↔ IsRatio ratio
  unfolding load_trace_sample_ratio
  load_trace_sample_ratio_iff ratio =
      rw
        (
          load_trace_sample_ratio,
          lookup_or_default-setting environment_trace_sample_ratio default_trace_sample_ratio,
        )
        (elim (Option-cases (
          parsing.parse_float (setting environment_trace_sample_ratio default_trace_sample_ratio)
            64)) [
              | inl missing ↦ rw missing (ground arith)
              | inr (n, found) ↦ rw found (ground arith)
            ])

  pub load_deployment_environment_iff :
      (environment : Bytes)
      → (load_deployment_environment floats parsing lookup ≡ ok environment)
        ↔ IsEnvironment environment
  unfolding load_deployment_environment
  load_deployment_environment_iff environment =
      rw
        (lookup_or_default-setting environment_deployment_environment
          default_deployment_environment)
        (ground (
          arith,
          is_one_of_iff (setting environment_deployment_environment default_deployment_environment)
              deployment_environments,
        ))

  pub load_enabled_iff :
      (enabled : Bool)
      → (load_enabled floats parsing lookup ≡ ok enabled) ↔ (
          parsing.parse_bool (setting environment_telemetry_enabled default_telemetry_enabled)
          ≡ some enabled)
  unfolding load_enabled
  load_enabled_iff enabled =
      rw
        (
          load_enabled,
          lookup_or_default-setting environment_telemetry_enabled default_telemetry_enabled,
        )
        (ground arith)
