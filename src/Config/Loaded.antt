-- ===== src/Config/Loaded.antt =====
-- What `Load` returns.
use chain_application.Prelude.{
  ◌≡◌, ◌↔◌, inl, inr, subst, arith, Bytes, [], Option, none, some, ok, Result-cases, Floats,
}
use chain_application.Config.{
  Parsing, Config, lookup_or_default, load, load_port, load_log_level, load_shutdown_timeout,
  load_telemetry,
}
use chain_application.Config.Variables.{
  environment_database_url, environment_signer_key_reference, default_signer_key_reference,
}
use chain_application.Config.Accepted.{
  setting, lookup_or_default-setting, IsPort, IsLogLevel, IsTimeout, load_port_iff,
  load_log_level_iff, load_shutdown_timeout_iff,
}
use chain_application.Config.Observability.{
  IsTelemetry, load_telemetry→IsTelemetry, IsTelemetry→load_telemetry,
}

module _ (floats : Floats) (parsing : Parsing floats.Float) (lookup : Bytes → Option Bytes) where
  abbrev pub database_url_of : Option Bytes → Bytes
  database_url_of none = []
  database_url_of (some url) = url

  -- The settings of the environment, each within its bounds.
  pub record IsLoaded (build_version : Bytes) (config : Config floats.Float) : Type 0 where
    pub port : IsPort floats parsing lookup config.port
    pub log_level : IsLogLevel floats parsing lookup config.log_level
    pub shutdown_timeout : IsTimeout floats parsing lookup config.shutdown_timeout
    pub telemetry : IsTelemetry floats parsing lookup build_version config.telemetry
    pub database_url : config.database_url ≡ database_url_of (lookup environment_database_url)
    pub signer_key_reference :
        config.signer_key_reference
        ≡ setting floats parsing lookup environment_signer_key_reference
            default_signer_key_reference

  signer_reference :
      lookup_or_default floats parsing lookup environment_signer_key_reference
        default_signer_key_reference
      ≡ setting floats parsing lookup environment_signer_key_reference default_signer_key_reference
  signer_reference =
      lookup_or_default-setting floats parsing lookup environment_signer_key_reference
        default_signer_key_reference

  load→IsLoaded :
      (build_version : Bytes) (config : Config floats.Float)
      → load floats parsing lookup build_version ≡ ok config
      → IsLoaded build_version config
  unfolding load
  load→IsLoaded build_version config h = elim (Result-cases (load_port floats parsing lookup)) [
    | inr (x, f) ↦ absurd (ground (arith, rw f at h))
    | inl (port, p) ↦ elim (Result-cases (load_log_level floats parsing lookup)) [
      | inr (x, f) ↦ absurd (ground (arith, rw (p, f) at h))
      | inl (level, l) ↦ elim (Result-cases (load_shutdown_timeout floats parsing lookup)) [
        | inr (x, f) ↦ absurd (ground (arith, rw (p, l, f) at h))
        | inl (timeout, s) ↦
            elim (Result-cases (load_telemetry floats parsing lookup build_version)) [
              | inr (x, f) ↦ absurd (ground (arith, rw (p, l, s, f) at h))
              | inl (telemetry, t) ↦
                  let same = rw (p, l, s, t) at h in
                  record {
                    port =
                        subst (IsPort floats parsing lookup) (ground (arith, same))
                          ((load_port_iff floats parsing lookup port).0 p);
                    log_level =
                        subst (IsLogLevel floats parsing lookup) (ground (arith, same))
                          ((load_log_level_iff floats parsing lookup level).0 l);
                    shutdown_timeout =
                        subst (IsTimeout floats parsing lookup) (ground (arith, same))
                          ((load_shutdown_timeout_iff floats parsing lookup timeout).0 s);
                    telemetry =
                        subst (IsTelemetry floats parsing lookup build_version)
                          (ground (arith, same))
                          (load_telemetry→IsTelemetry floats parsing lookup build_version telemetry
                            t);
                    database_url = ground (arith, same);
                    signer_key_reference = ground (arith, same, signer_reference);
                  }
            ]
      ]
    ]
  ]

  pub load_iff :
      (build_version : Bytes) (config : Config floats.Float)
      → (load floats parsing lookup build_version ≡ ok config) ↔ IsLoaded build_version config
  unfolding load
  load_iff build_version config = (
    load→IsLoaded build_version config,
    λ c.
        rw
          (
            (load_port_iff floats parsing lookup config.port).1 c.port,
            (load_log_level_iff floats parsing lookup config.log_level).1 c.log_level,
            (load_shutdown_timeout_iff floats parsing lookup config.shutdown_timeout).1
                c.shutdown_timeout,
            IsTelemetry→load_telemetry floats parsing lookup build_version config.telemetry
                c.telemetry,
          )
          (ground (arith, c.database_url, c.signer_key_reference, signer_reference)),
  )
