-- ===== src/Config/Observability.antt =====
-- Which settings of telemetry are loaded: in their bounds, with what it and production need.
use chain_application.Prelude.{
  Result-cases, ◌≡◌, ◌≢◌, ◌↔◌, ◌⊎◌, inl, inr, sym, ◌∙◌, ap, subst, arith, Bytes, [], Bool, true,
  Option, none, some, ok, bytes_equal_iff, Floats, if◌then◌else◌,
}
use chain_application.Config.{
  reject_ambient, reject_ambient_otel_sampler_configuration, load_trace_sample_ratio,
  load_deployment_environment, load_enabled, load_telemetry, checked_telemetry, Parsing, Telemetry,
}
use chain_application.Config.Variables.{
  environment_telemetry_enabled, environment_otel_traces_sampler,
  environment_otel_traces_sampler_arg, environment_telemetry_endpoint, environment_project_id,
  default_telemetry_enabled, default_service_name, project_id_pattern, production,
}
use chain_application.Config.Accepted.{
  setting, lookup_or_default-setting, IsRatio, IsEnvironment, load_enabled_iff,
  load_trace_sample_ratio_iff, load_deployment_environment_iff,
}

module _ (floats : Floats) (parsing : Parsing floats.Float) (lookup : Bytes → Option Bytes) where
  open floats use {Float, literal, less}

  -- No variable is set that would make the sampler's configuration ambiguous.
  abbrev pub IsUnambiguous : Bool → Type 0
  IsUnambiguous enabled =
      enabled ≡ true
      → (lookup environment_otel_traces_sampler ≡ none)
        × (lookup environment_otel_traces_sampler_arg ≡ none)

  checked_ambient_iff :
      (enabled : Bool) (u : Unit {0})
      → ((if enabled
            then reject_ambient_otel_sampler_configuration floats parsing lookup
            else ok tt)
          ≡ ok u)
        ↔ IsUnambiguous enabled
  unfolding reject_ambient
  checked_ambient_iff enabled u = ground arith

  -- What telemetry and production need.
  pub record IsComplete (build_version : Bytes) (t : Telemetry Float) : Type 0 where
    pub endpoint : t.endpoint ≡ setting floats parsing lookup environment_telemetry_endpoint []
    pub exported : t.enabled ≡ true → t.endpoint ≢ []
    pub project : t.project_id ≡ setting floats parsing lookup environment_project_id []
    pub billed : t.environment ≡ production → t.project_id ≢ []
    pub well_formed : (t.project_id ≡ []) ⊎ (parsing.matches project_id_pattern t.project_id ≡ true)
    pub named : t.service_name ≡ default_service_name
    pub built : t.version ≡ build_version

  checked_telemetry-IsComplete :
      (build_version : Bytes) (enabled : Bool) (ratio : Float) (environment : Bytes)
      (t : Telemetry Float)
      → checked_telemetry floats parsing lookup build_version enabled ratio environment ≡ ok t
      → (t.enabled ≡ enabled)
        × (t.trace_sample_ratio ≡ ratio)
        × (t.environment ≡ environment)
        × IsComplete build_version t
  unfolding checked_telemetry
  checked_telemetry-IsComplete build_version enabled ratio environment t h =
      let produces = bytes_equal_iff environment production in
      let exports =
        bytes_equal_iff (setting floats parsing lookup environment_telemetry_endpoint []) [] in
      let names = bytes_equal_iff (setting floats parsing lookup environment_project_id []) [] in
      let sent =
        lookup_or_default-setting floats parsing lookup environment_telemetry_endpoint [] in
      let owned = lookup_or_default-setting floats parsing lookup environment_project_id [] in
      (
        ground (arith, h),
        ground (arith, h),
        ground (arith, h),
        record {
          endpoint = ground (arith, h, sent);
          exported = ground (arith, h, produces, exports, names, sent, owned);
          project = ground (arith, h, owned);
          billed = ground (arith, h, produces, exports, names, sent, owned);
          well_formed = ground (arith, h, produces, exports, names, sent, owned);
          named = ground (arith, h);
          built = ground (arith, h);
        },
      )

  IsComplete-checked_telemetry :
      (build_version : Bytes) (t : Telemetry Float)
      → IsComplete build_version t
      → checked_telemetry floats parsing lookup build_version t.enabled t.trace_sample_ratio
          t.environment
        ≡ ok t
  unfolding checked_telemetry
  IsComplete-checked_telemetry build_version t c = ground (
    arith,
    c.endpoint,
    c.exported,
    c.project,
    c.billed,
    c.well_formed,
    c.named,
    c.built,
    bytes_equal_iff t.environment production,
    bytes_equal_iff t.endpoint [],
    bytes_equal_iff t.project_id [],
    lookup_or_default-setting floats parsing lookup environment_telemetry_endpoint [],
    lookup_or_default-setting floats parsing lookup environment_project_id [],
  )

  pub record IsTelemetry (build_version : Bytes) (t : Telemetry Float) : Type 0 where
    pub enabled :
        parsing.parse_bool
          (setting floats parsing lookup environment_telemetry_enabled default_telemetry_enabled)
        ≡ some t.enabled
    pub unambiguous : IsUnambiguous t.enabled
    pub ratio : IsRatio floats parsing lookup t.trace_sample_ratio
    pub environment : IsEnvironment floats parsing lookup t.environment
    pub complete : IsComplete build_version t

  pub load_telemetry→IsTelemetry :
      (build_version : Bytes) (t : Telemetry Float)
      → load_telemetry floats parsing lookup build_version ≡ ok t
      → IsTelemetry build_version t
  unfolding load_telemetry
  load_telemetry→IsTelemetry build_version t h =
      elim (Result-cases (load_enabled floats parsing lookup)) [
        | inr (e, f) ↦ absurd (ground (arith, rw f at h))
        | inl (enabled, e) ↦
            elim (Result-cases (
              if enabled
              then reject_ambient_otel_sampler_configuration floats parsing lookup
              else ok tt)) [
                | inr (x, f) ↦ absurd (ground (arith, rw (e, f) at h))
                | inl (u, a) ↦ elim (Result-cases (load_trace_sample_ratio floats parsing lookup)) [
                  | inr (x, f) ↦ absurd (ground (arith, rw (e, a, f) at h))
                  | inl (ratio, r) ↦
                      elim (Result-cases (load_deployment_environment floats parsing lookup)) [
                        | inr (x, f) ↦ absurd (ground (arith, rw (e, a, r, f) at h))
                        | inl (environment, n) ↦
                            let (same_enabled, same_ratio, same_environment, complete) =
                              checked_telemetry-IsComplete build_version enabled ratio environment t
                                (rw (e, a, r, n) at h) in
                            record {
                              enabled =
                                  (load_enabled_iff floats parsing lookup t.enabled).0
                                    (e ∙ ap ok (sym same_enabled));
                              unambiguous =
                                  subst IsUnambiguous (sym same_enabled)
                                    ((checked_ambient_iff enabled u).0 a);
                              ratio =
                                  subst (IsRatio floats parsing lookup) (sym same_ratio)
                                    ((load_trace_sample_ratio_iff floats parsing lookup ratio).0 r);
                              environment =
                                  subst (IsEnvironment floats parsing lookup) (sym same_environment)
                                    ((load_deployment_environment_iff floats parsing lookup
                                        environment).0
                                      n);
                              complete = complete;
                            }
                      ]
                ]
              ]
      ]

  pub IsTelemetry→load_telemetry :
      (build_version : Bytes) (t : Telemetry Float)
      → IsTelemetry build_version t
      → load_telemetry floats parsing lookup build_version ≡ ok t
  unfolding load_telemetry
  IsTelemetry→load_telemetry build_version t c =
      rw
        (
          (load_enabled_iff floats parsing lookup t.enabled).1 c.enabled,
          (checked_ambient_iff t.enabled tt).1 c.unambiguous,
          (load_trace_sample_ratio_iff floats parsing lookup t.trace_sample_ratio).1 c.ratio,
          (load_deployment_environment_iff floats parsing lookup t.environment).1 c.environment,
        )
        (IsComplete-checked_telemetry build_version t c.complete)
