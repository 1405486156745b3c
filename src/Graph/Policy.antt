-- ===== src/Graph/Policy.antt =====
-- internal/graph/v1/policy.go: the rules of an evaluation, and their validation. A map of trust roots
-- is an association list. `Validate` writes its defaults through the pointer, so it returns the
-- policy.
use chain_application.Prelude.{
  Bytes, List, [], ◌∷◌, Bool, false, ◌||◌, ◌==◌, Result, ok, ◌>>◌, fail_if, ascii, length, pos_part,
  ℤ, pos, Floats, if◌then◌else◌,
}

abbrev pub default_algorithm_version : Bytes
default_algorithm_version = ascii "transitive-path-damping:v1"

abbrev pub default_max_hops : ℤ
default_max_hops = pos 3

pub data PolicyError : Type 0 where
  empty_trust_roots invalid_trust_weight invalid_decay_factor invalid_max_hops : PolicyError

pub record EvaluationPolicy (Float : Type 0) : Type 0 where
  pub trust_roots : List (Bytes × Float)
  pub topic : Bytes
  pub max_hops : ℤ
  pub decay_factor : Float
  pub min_confidence : Float
  pub algorithm_version : Bytes

module _ (floats : Floats) where
  open floats use {Float, literal, less, at_most}

  abbrev pub default_decay_factor : Float
  default_decay_factor = literal 6 1

  abbrev pub default_min_confidence : Float
  default_min_confidence = literal 1 3

  -- The copy of the map is a map of its own.
  abbrev pub new_default_policy : List (Bytes × Float) → Bytes → EvaluationPolicy Float
  new_default_policy trust_roots topic = record {
    trust_roots = trust_roots;
    topic = topic;
    max_hops = default_max_hops;
    decay_factor = default_decay_factor;
    min_confidence = default_min_confidence;
    algorithm_version = default_algorithm_version;
  }

  -- The loop over the map, in any order, since every entry fails in the same way.
  unfoldable pub bad_weight : List (Bytes × Float) → Bool
  bad_weight [] = false
  bad_weight ((k, w) ∷ m) = at_most w (literal 0 0) || less (literal 1 0) w || bad_weight m

  -- The two assignments of defaults.
  abbrev pub with_defaults : EvaluationPolicy Float → EvaluationPolicy Float
  with_defaults p = record p {
    algorithm_version =
        if length p.algorithm_version == 0 then default_algorithm_version else p.algorithm_version;
    min_confidence =
        if at_most p.min_confidence (literal 0 0) then default_min_confidence else p.min_confidence;
  }

  unfoldable pub validate : EvaluationPolicy Float → Result PolicyError (EvaluationPolicy Float)
  validate p = do
    fail_if (length p.trust_roots == 0) empty_trust_roots
    fail_if (bad_weight p.trust_roots) invalid_trust_weight
    fail_if (pos_part p.max_hops == 0) invalid_max_hops
    fail_if (at_most p.decay_factor (literal 0 0) || at_most (literal 1 0) p.decay_factor)
        invalid_decay_factor
    ok (with_defaults p)
