-- ===== src/HttpApi/Explained.antt =====
-- What EvaluateConfidence answers.
use chain_application.Prelude.{
  ℕ, ◌⊎◌, ◌≡◌, ◌<◌, refl, ap, arith, Bytes, [], map, encode_hex, bytes_equal, of_uint64,
  if◌then◌else◌, Option, none, some, subst, true, false, Bool-cases, inl, inr, Result, ok, err,
  Result-cases, Floats,
}
use chain_application.Ledger.Constants.{max_uint64}
use chain_application.Ledger.Wires.{Libraries}
use chain_application.Endorsement.Wires.{Crypto}
use chain_application.LedgerStore.{Database}
use chain_application.Graph.Store.{Graph, new_graph}
use chain_application.Graph.Store.Invariant.{new_graph-IsIndexed}
use chain_application.Graph.Policy.{EvaluationPolicy, validate}
use chain_application.Graph.Provenance.{ConfidenceResult}
use chain_application.Graph.Evaluator.{evaluate}
use chain_application.Graph.Evaluator.Outcome.{IsExplained, evaluate-ok}
use chain_application.Graph.Evaluator.Scored.{IsScored}
use chain_application.Graph.Projector.Stored.{Replayed, ReplayError, replay_from_store}
use chain_application.Graph.Projector.Stored.Whole.{IsWhole, replay_from_store-IsWhole}
use chain_application.Graph.Projector.Stored.Ending.{IsBounded, replay_from_store-IsEnded}
use chain_application.HttpApi.{
  ServerError, replay_error, invalid_policy, Refusal, Response, Server, parse_hex32, success,
  failed, refused, store_unavailable,
}
use chain_application.HttpApi.Confidence.{
  evaluation_response, Narrow, ConfidenceResponse, Request, parsed_evaluation, confidence_response,
  Answer, after_replay, with_replayed, with_evaluation, evaluate_confidence,
}

module _ (floats : Floats) (convert : Narrow floats.Float) (crypto : Crypto) (libraries : Libraries)
    (database : Database) (server : Server) where
  open floats use {Float}
  open convert use {Float32, narrow}
  open database use {World}

  -- The confidence over the graph that the records of the ledger give, explained by its paths.
  pub record IsAnswered (fuel : ℕ) (ledger_id : Bytes)
      (body : Option (Request floats convert crypto)) (world : World)
      (response : ConfidenceResponse Float32) : Type 0 where
    pub id : Bytes
    pub target : Bytes
    pub policy : EvaluationPolicy Float
    pub checked : EvaluationPolicy Float
    pub replayed : Replayed World
    pub result : ConfidenceResult Float
    pub parsed :
        parsed_evaluation floats convert crypto (parse_hex32 ledger_id) body
        ≡ ok (id, target, policy)
    pub read :
        replay_from_store libraries crypto database fuel 256 world (new_graph id) ≡ some replayed
    pub complete : replayed.failure ≡ none
    pub valid : validate floats policy ≡ ok checked
    pub explained : IsExplained floats replayed.graph checked target result
    pub whole :
        IsWhole libraries crypto database 256 world (new_graph id) replayed.world replayed.graph
    pub answered : response ≡ record {
      target_public_key_hex = encode_hex target;
      topic = if bytes_equal checked.topic [] then none else some checked.topic;
      confidence_score = narrow result.confidence_score;
      algorithm = checked.algorithm_version;
      evaluated_at_sequence = of_uint64 replayed.graph.last_sequence;
      contributing_records_hex = map encode_hex result.contributing_records;
    }

  -- The response, in terms of what was asked for.
  spelled_out :
      (g : Graph) (policy : EvaluationPolicy Float) (target : Bytes)
      (result : ConfidenceResult Float)
      → IsScored floats g policy target result
      → confidence_response floats convert crypto result ≡ record {
        target_public_key_hex = encode_hex target;
        topic = if bytes_equal policy.topic [] then none else some policy.topic;
        confidence_score = narrow result.confidence_score;
        algorithm = policy.algorithm_version;
        evaluated_at_sequence = of_uint64 g.last_sequence;
        contributing_records_hex = map encode_hex result.contributing_records;
      }
  spelled_out g policy target result s =
      rw (s.same_target, s.same_topic, s.same_algorithm, s.at_sequence) refl

  -- A refusal, or an error that is answered with status 500.
  abbrev pub IsUnsuccessful : Response (ConfidenceResponse Float32) → Type 0
  IsUnsuccessful answer =
      ((status : ℕ) × (reason : Refusal) × (answer ≡ refused status reason))
      ⊎ ((e : ServerError) × (answer ≡ failed e))

  -- A success rests on a replay without error and an evaluation that succeeded.
  abbrev IsReplayed :
      Bytes
      → EvaluationPolicy Float
      → Graph
      → Option ReplayError
      → Response (ConfidenceResponse Float32)
      → Type 0
  IsReplayed target policy g failure answer =
      (result : ConfidenceResult Float) × (failure ≡ none)
      × (evaluate floats g policy target ≡ ok result)
      × (answer ≡ success 200 (confidence_response floats convert crypto result))

  after_replay-cases :
      (target : Bytes) (policy : EvaluationPolicy Float) (g : Graph) (failure : Option ReplayError)
      → IsUnsuccessful
          (after_replay floats convert crypto libraries database server target policy g failure)
        ⊎ IsReplayed target policy g failure
            (after_replay floats convert crypto libraries database server target policy g failure)
  after_replay-cases target policy g (some e) = inl (inr (replay_error e, refl))
  after_replay-cases target policy g none = elim (Result-cases (evaluate floats g policy target)) [
    | inr (e, f) ↦
        inl (inl (400, invalid_policy e, ap (evaluation_response floats convert crypto) f))
    | inl (result, f) ↦ inr (result, refl, f, ap (evaluation_response floats convert crypto) f)
  ]

  -- Every outcome of the handler.
  abbrev pub IsFinal :
      ℕ
      → Bytes
      → Option (Request floats convert crypto)
      → World
      → Option (Answer floats convert crypto libraries database server)
      → Type 0
  IsFinal fuel ledger_id body world out =
      (answer : World × Response (ConfidenceResponse Float32)) × (out ≡ some answer)
      × (IsUnsuccessful answer.1
          ⊎ ((response : ConfidenceResponse Float32) × (answer.1 ≡ success 200 response)
              × IsAnswered fuel ledger_id body world response))

  with_evaluation-IsFinal :
      (limit : ℕ)
      → limit < max_uint64
      → IsBounded libraries crypto database limit
      → (fuel : ℕ) → limit < fuel
      → (ledger_id : Bytes) (body : Option (Request floats convert crypto)) (world : World)
        (parsed : Result Refusal (Bytes × Bytes × EvaluationPolicy Float))
      → parsed_evaluation floats convert crypto (parse_hex32 ledger_id) body ≡ parsed
      → IsFinal fuel ledger_id body world
          (with_evaluation floats convert crypto libraries database server fuel world parsed)
  with_evaluation-IsFinal limit small bounded fuel enough ledger_id body world (err r) same =
      ((world, refused 400 r), refl, inl (inl (400, r, refl)))
  with_evaluation-IsFinal limit small bounded fuel enough ledger_id body world
        (ok (id, target, policy)) same =
      let end =
        replay_from_store-IsEnded libraries crypto database limit small bounded fuel 256 world
          (new_graph id) (new_graph-IsIndexed id) (omega arith) (omega (arith, enough)) in
      let out = end.out in
      (
        (
          out.world,
          after_replay floats convert crypto libraries database server target policy out.graph
              out.failure,
        ),
        ap (with_replayed floats convert crypto libraries database server target policy) end.ended,
        elim (after_replay-cases target policy out.graph out.failure) [
          | inl unsuccessful ↦ inl unsuccessful
          | inr (result, whole, found, answered) ↦
              let (checked, accepted, explained) =
                evaluate-ok floats out.graph policy target result end.indexed found in
              inr (
                confidence_response floats convert crypto result,
                answered,
                record {
                  id = id;
                  target = target;
                  policy = policy;
                  checked = checked;
                  replayed = out;
                  result = result;
                  parsed = same;
                  read = end.ended;
                  complete = whole;
                  valid = accepted;
                  explained = explained;
                  whole =
                      replay_from_store-IsWhole libraries crypto database fuel 256 world
                        (new_graph id) out end.ended whole;
                  answered = spelled_out out.graph checked target result explained.2;
                },
              )
        ],
      )

  -- Where no ledger has more sequence numbers than a bound below the last uint64, with that much fuel
  -- EvaluateConfidence answers every request: with a refusal, with an error, or with status 200. A 200
  -- rests on a replay in which every scan was read and every record applied, up to a scan that found
  -- fewer records than it asked for, so possibly on no record at all; its confidence is the one of the
  -- paths that the policy allows in the graph of that replay, and its records are those on the paths.
  pub evaluate_confidence-IsAnswered :
      (limit : ℕ)
      → limit < max_uint64
      → IsBounded libraries crypto database limit
      → (fuel : ℕ) → limit < fuel
      → (ledger_id : Bytes) (body : Option (Request floats convert crypto)) (world : World)
      → IsFinal fuel ledger_id body world (
          evaluate_confidence floats convert crypto libraries database server fuel ledger_id body
            world)
  unfolding evaluate_confidence
  evaluate_confidence-IsAnswered limit small bounded fuel enough ledger_id body world =
      elim (Bool-cases server.has_store) [
        | inr missing ↦
            subst (IsFinal fuel ledger_id body world) (refused_at missing) (
              (world, refused 404 store_unavailable),
              refl,
              inl (inl (404, store_unavailable, refl)),
            )
        | inl present ↦ subst (IsFinal fuel ledger_id body world) (goes_on present) (
            with_evaluation-IsFinal limit small bounded fuel enough ledger_id body world
              (parsed_evaluation floats convert crypto (parse_hex32 ledger_id) body) refl)
      ]
    where
      refused_at :
          server.has_store ≡ false
          → some (world, refused 404 store_unavailable)
            ≡ evaluate_confidence floats convert crypto libraries database server fuel ledger_id
                body world
      refused_at h = ground (arith, h)

      goes_on :
          server.has_store ≡ true
          → with_evaluation floats convert crypto libraries database server fuel world
              (parsed_evaluation floats convert crypto (parse_hex32 ledger_id) body)
            ≡ evaluate_confidence floats convert crypto libraries database server fuel ledger_id
                body world
      goes_on h = ground (arith, h)
