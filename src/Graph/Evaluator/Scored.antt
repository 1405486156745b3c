-- ===== src/Graph/Evaluator/Scored.antt =====
-- The confidence that an evaluation returns, and of what.
use chain_application.Prelude.{
  ◌≡◌, refl, ap, ◌∙◌, Bytes, List, [], ◌∷◌, Option, none, some, lookup, Floats,
}
use chain_application.Graph.Store.{Graph}
use chain_application.Graph.Policy.{EvaluationPolicy}
use chain_application.Graph.Provenance.{PathTrace, ConfidenceResult}
use chain_application.Graph.Evaluator.{unconfidence, evaluated}

module _ (floats : Floats) (g : Graph) (policy : EvaluationPolicy floats.Float)
    (target : Bytes) where
  open floats use {Float, literal, times, minus, maximum, minimum}

  -- The trust in the target itself, and none where it is no trust root.
  abbrev pub trust_in : Option Float → Float
  trust_in none = literal 0 0
  trust_in (some weight) = weight

  -- What is left of a doubt after each of the paths, which count as independent.
  abbrev pub doubt_after : Float → List (PathTrace Float) → Float
  doubt_after doubt [] = doubt
  doubt_after doubt (t ∷ ts) = doubt_after (times doubt (minus (literal 1 0) t.path_weight)) ts

  -- The confidence is what no doubt is left of, between 0 and 1, and the result says of what it is the
  -- confidence: the target, the topic, the algorithm and the watermark of the graph.
  pub record IsScored (result : ConfidenceResult Float) : Type 0 where
    pub score :
        result.confidence_score
        ≡ maximum (literal 0 0) (
            minimum (literal 1 0) (
              minus (literal 1 0) (
                doubt_after
                  (minus (literal 1 0) (trust_in (lookup target policy.trust_roots)))
                  result.contributing_paths)))
    pub same_target : result.target ≡ target
    pub same_topic : result.topic ≡ policy.topic
    pub same_algorithm : result.algorithm ≡ policy.algorithm_version
    pub at_sequence : result.evaluated_at_sequence ≡ g.last_sequence

  unconfidence-doubt_after :
      (doubt : Float) (ts : List (PathTrace Float))
      → unconfidence floats g policy target doubt ts ≡ doubt_after doubt ts
  unfolding unconfidence
  unconfidence-doubt_after doubt [] = refl
  unconfidence-doubt_after doubt (t ∷ ts) =
      unconfidence-doubt_after (times doubt (minus (literal 1 0) t.path_weight)) ts

  trust_in-lookup :
      (found : Option Float) → elim found [ none ↦ literal 0 0 | some w ↦ w ] ≡ trust_in found
  trust_in-lookup none = refl
  trust_in-lookup (some w) = refl

  pub evaluated-IsScored : IsScored (evaluated floats g policy target)
  unfolding evaluated
  evaluated-IsScored =
      let paths = (evaluated floats g policy target).contributing_paths in
      record {
        score =
            ap (λ d. maximum (literal 0 0) (minimum (literal 1 0) (minus (literal 1 0) d)))
              (unconfidence-doubt_after
                  (minus (literal 1 0)
                    (elim (lookup target policy.trust_roots) [ none ↦ literal 0 0 | some w ↦ w ]))
                  paths
                ∙ ap (λ w. doubt_after (minus (literal 1 0) w) paths)
                    (trust_in-lookup (lookup target policy.trust_roots)));
        same_target = refl;
        same_topic = refl;
        same_algorithm = refl;
        at_sequence = refl;
      }
