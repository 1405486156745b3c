-- ===== src/HttpApi/Confidence.antt =====
-- internal/httpapi/server.go: EvaluateConfidence. The conversions between `float32` and `float64` are
-- a parameter; the explanation of the response is left out. The replay takes fuel, so the handler does.
use chain_application.Prelude.{
  ℕ, Bytes, List, [], ◌∷◌, map, not, Option, none, some, Result, ok, err, map_err, ◌>>=◌,
  bytes_equal, insert, encode_hex, ℤ, of_uint64, Floats, if◌then◌else◌,
}
use chain_application.Ledger.Wires.{Libraries}
use chain_application.Endorsement.Wires.{Crypto}
use chain_application.LedgerStore.{Database}
use chain_application.Graph.Store.{Graph, new_graph}
use chain_application.Graph.Identity.{identity_key_from_hex}
use chain_application.Graph.Policy.{EvaluationPolicy, PolicyError, new_default_policy}
use chain_application.Graph.Provenance.{ConfidenceResult}
use chain_application.Graph.Evaluator.{evaluate}
use chain_application.Graph.Projector.Stored.{Replayed, ReplayError, replay_from_store}
use chain_application.HttpApi.{
  Refusal, Response, Server, or_refuse, parse_hex32, success, refused, failed, store_unavailable,
  invalid_ledger_id, missing_body, invalid_target_key, invalid_trust_root, invalid_policy,
  replay_error,
}

pub record Narrow (Float : Type 0) : Type 1 where
  pub Float32 : Type 0
  pub widen : Float32 → Float
  pub narrow : Float → Float32

pub record TrustRootSpec (Float32 : Type 0) : Type 0 where
  pub public_key_hex : Bytes
  pub weight : Float32

pub record EvaluateConfidenceRequest (Float32 : Type 0) : Type 0 where
  pub target_public_key_hex : Bytes
  pub trust_roots : List (TrustRootSpec Float32)
  pub topic : Option Bytes
  pub max_hops : Option ℤ
  pub decay_factor : Option Float32

pub record ConfidenceResponse (Float32 : Type 0) : Type 0 where
  pub target_public_key_hex : Bytes
  pub topic : Option Bytes
  pub confidence_score : Float32
  pub algorithm : Bytes
  pub evaluated_at_sequence : ℤ
  pub contributing_records_hex : List Bytes

-- `if p != nil { v = *p }`.
abbrev pub or_default {ℓ} : {A : Type ℓ} → A → Option A → A
or_default a none = a
or_default a (some b) = b

module _ (floats : Floats) (convert : Narrow floats.Float) (crypto : Crypto) where
  open floats use {Float}
  open convert use {Float32, widen, narrow}

  abbrev pub Request : Type 0
  Request = EvaluateConfidenceRequest Float32

  -- The loop over the trust roots, which fills a map.
  unfoldable pub parse_roots :
      List (TrustRootSpec Float32) → List (Bytes × Float) → Result Refusal (List (Bytes × Float))
  parse_roots [] m = ok m
  parse_roots (root ∷ roots) m = elim (identity_key_from_hex crypto root.public_key_hex) [
    | err e ↦ err (invalid_trust_root root.public_key_hex e)
    | ok key ↦ parse_roots roots (insert key (widen root.weight) m)
  ]

  unfoldable pub policy_of : Request → List (Bytes × Float) → EvaluationPolicy Float
  policy_of request roots =
      let policy = new_default_policy floats roots (or_default [] request.topic) in
      record policy {
        max_hops = or_default policy.max_hops request.max_hops;
        decay_factor = elim request.decay_factor [
          | none ↦ policy.decay_factor
          | some factor ↦ widen factor
        ];
      }

  -- The ledger, the target and the policy that a request asks for.
  unfoldable pub parsed_evaluation :
      Option Bytes → Option Request → Result Refusal (Bytes × Bytes × EvaluationPolicy Float)
  parsed_evaluation ledger_id body = do
    id ← or_refuse invalid_ledger_id ledger_id
    request ← or_refuse missing_body body
    target ← map_err invalid_target_key (identity_key_from_hex crypto request.target_public_key_hex)
    roots ← parse_roots request.trust_roots []
    ok (id, target, policy_of request roots)

  abbrev pub confidence_response : ConfidenceResult Float → ConfidenceResponse Float32
  confidence_response result = record {
    target_public_key_hex = encode_hex result.target;
    topic = if bytes_equal result.topic [] then none else some result.topic;
    confidence_score = narrow result.confidence_score;
    algorithm = result.algorithm;
    evaluated_at_sequence = of_uint64 result.evaluated_at_sequence;
    contributing_records_hex = map encode_hex result.contributing_records;
  }

  abbrev pub evaluation_response :
      Result PolicyError (ConfidenceResult Float) → Response (ConfidenceResponse Float32)
  evaluation_response (err e) = refused 400 (invalid_policy e)
  evaluation_response (ok result) = success 200 (confidence_response result)

  module _ (libraries : Libraries) (database : Database) (server : Server) where
    open database use {World}

    abbrev pub Answer : Type 0
    Answer = World × Response (ConfidenceResponse Float32)

    -- After the replay, by the error that it returned.
    abbrev pub after_replay :
        Bytes
        → EvaluationPolicy Float
        → Graph
        → Option ReplayError
        → Response (ConfidenceResponse Float32)
    after_replay target policy g (some e) = failed (replay_error e)
    after_replay target policy g none = evaluation_response (evaluate floats g policy target)

    abbrev pub with_replayed :
        Bytes → EvaluationPolicy Float → Option (Replayed World) → Option Answer
    with_replayed target policy none = none
    with_replayed target policy (some out) =
        some (out.world, after_replay target policy out.graph out.failure)

    abbrev pub with_evaluation :
        ℕ → World → Result Refusal (Bytes × Bytes × EvaluationPolicy Float) → Option Answer
    with_evaluation fuel world (err r) = some (world, refused 400 r)
    with_evaluation fuel world (ok (id, target, policy)) =
        with_replayed target policy
          (replay_from_store libraries crypto database fuel 256 world (new_graph id))

    unfoldable pub evaluate_confidence : ℕ → Bytes → Option Request → World → Option Answer
    evaluate_confidence fuel ledger_id body world =
        if not server.has_store
        then some (world, refused 404 store_unavailable)
        else with_evaluation fuel world (parsed_evaluation (parse_hex32 ledger_id) body)
