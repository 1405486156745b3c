-- ===== src/Tests/Evaluations.antt =====
-- An evaluation over the graph of two endorsements, and the theorems of the evaluator at it.
use chain_application.Prelude.{ℕ, ◌≡◌, refl, [], ◌∷◌, ok, ltb, leb, Floats}
use Prim.Native.Nat.{◌*◌, ◌-◌, ◌^◌}
use chain_application.Prelude.{if◌then◌else◌}
use chain_application.Graph.Policy.{EvaluationPolicy, new_default_policy, validate, bad_weight}
use chain_application.Graph.Provenance.{ConfidenceResult}
use chain_application.Graph.Evaluator.{evaluate}
use chain_application.Graph.Evaluator.Outcome.{IsExplained, evaluate-IsExplained}
use chain_application.Tests.Graphs.{ann, bob, two, two-IsIndexed}

-- Numbers in thousandths, that lose nothing over a hop.
abbrev pub toy_floats : Floats
toy_floats = record {
  Float = ℕ;
  literal = λ n k. n * 10 ^ (3 - k);
  times = λ a b. a;
  minus = λ a b. a - b;
  maximum = λ a b. if ltb a b then b else a;
  minimum = λ a b. if ltb a b then a else b;
  less = ltb;
  at_most = leb;
}

abbrev toy_policy : EvaluationPolicy ℕ
toy_policy = new_default_policy toy_floats ((ann, 500) ∷ []) []

validate_accepts : validate toy_floats toy_policy ≡ ok toy_policy
unfolding validate bad_weight
validate_accepts = refl

evaluate-IsExplained_example :
    (result : ConfidenceResult ℕ) × (evaluate toy_floats two toy_policy bob ≡ ok result)
    × IsExplained toy_floats two toy_policy bob result
evaluate-IsExplained_example =
    evaluate-IsExplained toy_floats two toy_policy toy_policy bob two-IsIndexed validate_accepts
