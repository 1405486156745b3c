-- ===== src/Graph/Evaluator/Outcome.antt =====
-- What an evaluation returns: its paths are those that the policy allows, and its records are those
-- that the hops of the paths name.
use chain_application.Prelude.{
  ◌≡◌, ◌≢◌, ◌↔◌, inl, inr, refl, sym, ap, ◌∙◌, subst, arith, Bytes, List, [], ok, err, bytes_equal,
  bytes_equal→eq, bytes_equal_iff, Memᴰ, mem-flat_map, sort_by, mem-sort_by, pos_part, Floats,
  ok_injective, Result-cases, Bool-cases,
}
use mathlib.Core.List.Memᴰ
use chain_application.Graph.Store.{Graph}
use chain_application.Graph.Store.Invariant.{IsIndexed}
use chain_application.Graph.Policy.{EvaluationPolicy, PolicyError, validate}
use chain_application.Graph.Provenance.{PathTrace, ConfidenceResult}
use chain_application.Graph.Provenance.Digests.{IsAscending, deduplicate_digests-IsAscending}
use chain_application.Graph.Evaluator.{
  nothing_found, by_hex, only_visited, search_roots, evaluated, evaluate,
}
use chain_application.Graph.Evaluator.Routes.{IsTraced, paths_from_iff}
use chain_application.Graph.Evaluator.Scored.{IsScored, evaluated-IsScored}
use chain_application.Graph.Evaluator.Growth.{
  digests_of, digests_on, root_paths, search_roots-IsGrown,
}

module _ (floats : Floats) (g : Graph) (policy : EvaluationPolicy floats.Float)
    (target : Bytes) where
  open floats use {Float}

  -- A path that the policy allows, from a trust root that is not the target, as it is written down.
  abbrev pub IsContributing : PathTrace Float → Type 0
  IsContributing t =
      (r : Bytes × Float) × Memᴰ r policy.trust_roots
      × (r.0 ≢ target)
      × IsTraced floats g policy target r.0 r.1 (pos_part policy.max_hops) r.0 r.1 []
          (only_visited floats g policy target r.0) t

  -- The records that an evaluation names are those on its paths, each once.
  abbrev pub IsCited : ConfidenceResult Float → Type 0
  IsCited result =
      IsAscending result.contributing_records
      × ((d : Bytes)
          → Memᴰ d result.contributing_records ↔ (
              (t : PathTrace Float) × Memᴰ t result.contributing_paths
              × Memᴰ d (digests_of t.hops)))

  abbrev pub IsExplained : ConfidenceResult Float → Type 0
  IsExplained result =
      ((t : PathTrace Float) → Memᴰ t result.contributing_paths ↔ IsContributing t)
      × IsCited result
      × IsScored floats g policy target result

  root_paths_iff :
      IsIndexed g
      → (r : Bytes × Float) (t : PathTrace Float)
      → Memᴰ t (root_paths floats g policy target r) ↔ (
          (r.0 ≢ target)
          × IsTraced floats g policy target r.0 r.1
              (pos_part policy.max_hops)
              r.0
              r.1
              []
              (only_visited floats g policy target r.0)
              t)
  root_paths_iff valid (root, weight) t = elim (Bool-cases (bytes_equal root target)) [
    | inl same ↦
        rw same (λ m. absurd (Memᴰ.not-nil m), λ h. absurd (h.0 (bytes_equal→eq root target same)))
    | inr other ↦
        let away : root ≢ target = λ e. ground (arith, other, bytes_equal_iff root target, e) in
        let all =
          paths_from_iff floats g policy target root weight valid (pos_part policy.max_hops) root
            weight [] (only_visited floats g policy target root) t away in
        rw other (λ m. (away, all.0 m), λ h. all.1 h.1)
  ]

  abbrev sorted_roots : List (Bytes × Float)
  sorted_roots = sort_by (λ a b. by_hex floats g policy target a.0 b.0) policy.trust_roots

  evaluated-paths_iff :
      IsIndexed g
      → (t : PathTrace Float)
      → Memᴰ t (evaluated floats g policy target).contributing_paths ↔ IsContributing t
  unfolding evaluated
  evaluated-paths_iff valid t =
      let grown = search_roots-IsGrown floats g policy target sorted_roots nothing_found in
      let on = mem-flat_map (root_paths floats g policy target) t sorted_roots in
      (
        λ m.
            let (r, k, n) = on.0 (subst (Memᴰ t) grown.0 m) in
            let (away, traced) = (root_paths_iff valid r t).0 n in
            (
              r,
              (mem-sort_by (λ a b. by_hex floats g policy target a.0 b.0) r policy.trust_roots).0 k,
              away,
              traced,
            ),
        λ (r, k, away, traced). subst (Memᴰ t) (sym grown.0) (
            on.1 (
              r,
              (mem-sort_by (λ a b. by_hex floats g policy target a.0 b.0) r policy.trust_roots).1 k,
              (root_paths_iff valid r t).1 (away, traced),
            )),
      )

  evaluated-IsCited : IsCited (evaluated floats g policy target)
  unfolding evaluated
  evaluated-IsCited =
      let found = search_roots floats g policy target sorted_roots nothing_found in
      let grown = search_roots-IsGrown floats g policy target sorted_roots nothing_found in
      let same : found.digests ≡ digests_on found.all_paths =
        grown.1 ∙ ap digests_on (sym grown.0) in
      let (ascending, members) = deduplicate_digests-IsAscending found.digests in
      (
        ascending,
        λ d.
            let on = mem-flat_map (λ (t : PathTrace Float). digests_of t.hops) d found.all_paths in
            (
              λ m. on.0 (subst (Memᴰ d) same ((members d).0 m)),
              λ h. (members d).1 (subst (Memᴰ d) (sym same) (on.1 h)),
            ),
      )

-- Under a policy that validation accepts, an evaluation of an indexed graph returns a result. Its
-- paths are exactly those that the policy allows: from a trust root other than the target, along at
-- most `max_hops` active endorsements of the topic, with no identity twice and no weight below the
-- bound, to the target. Its records are those that the hops of the paths name, each once and in
-- ascending order. Its confidence is 1 less the product of what the trust in the target and the weight of
-- each path leave of 1, between 0 and 1.
pub evaluate-IsExplained :
    (floats : Floats) (g : Graph) (policy checked : EvaluationPolicy floats.Float) (target : Bytes)
    → IsIndexed g
    → validate floats policy ≡ ok checked
    → (result : ConfidenceResult floats.Float) × (evaluate floats g policy target ≡ ok result)
      × IsExplained floats g checked target result
unfolding evaluate
evaluate-IsExplained floats g policy checked target valid accepted = (
  evaluated floats g checked target,
  rw accepted refl,
  (
    evaluated-paths_iff floats g checked target valid,
    evaluated-IsCited floats g checked target,
    evaluated-IsScored floats g checked target,
  ),
)

-- An evaluation does not succeed where the validation fails.
refused_policy :
    (floats : Floats) (g : Graph) (policy : EvaluationPolicy floats.Float) (target : Bytes)
    (result : ConfidenceResult floats.Float) (e : PolicyError)
    → validate floats policy ≡ err e
    → evaluate floats g policy target ≡ ok result
    → ⊥
unfolding evaluate
refused_policy floats g policy target result e f h = ground (arith, rw f at h)

-- The same of an evaluation that has succeeded.
pub evaluate-ok :
    (floats : Floats) (g : Graph) (policy : EvaluationPolicy floats.Float) (target : Bytes)
    (result : ConfidenceResult floats.Float)
    → IsIndexed g
    → evaluate floats g policy target ≡ ok result
    → (checked : EvaluationPolicy floats.Float) × (validate floats policy ≡ ok checked)
      × IsExplained floats g checked target result
evaluate-ok floats g policy target result valid h = elim (Result-cases (validate floats policy)) [
  | inr (e, f) ↦ absurd (refused_policy floats g policy target result e f h)
  | inl (checked, f) ↦
      let (found, same, explained) = evaluate-IsExplained floats g policy checked target valid f in
      (
        checked,
        f,
        subst (IsExplained floats g checked target)
            (ok_injective (evaluate floats g policy target) found result same h) explained,
      )
]
