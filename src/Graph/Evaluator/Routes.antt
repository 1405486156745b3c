-- ===== src/Graph/Evaluator/Routes.antt =====
-- Which paths the enumeration has: the simple paths of active endorsements to the target.
use chain_application.Prelude.{
  ℕ, zero, suc, ◌≡◌, ◌≢◌, ◌↔◌, ◌≤◌, refl, sym, ap, ◌∙◌, subst, arith, Bytes, List, [], ◌∷◌, ◌++◌,
  Bool, true, false, length, ltb, bytes_equal, bytes_equal→eq, bytes_equal_iff, update, Floats,
  Bool-cases, inl, inr, Memᴰ, mem-flat_map, append_assoc,
}
use mathlib.Core.List.Memᴰ
use chain_application.Graph.Edge.{AttestationEdge}
use chain_application.Graph.Store.{Graph}
use chain_application.Graph.Store.Invariant.{IsIndexed}
use chain_application.Graph.Policy.{EvaluationPolicy}
use chain_application.Graph.Provenance.{PathHop, PathTrace}
use chain_application.Graph.Evaluator.Offers.{IsOffered, Leads, IsSimple, hops_of, out_edges_iff}
use chain_application.Graph.Evaluator.{hop_of, sorted_edges}
use chain_application.Graph.Evaluator.Paths.{Paths, paths_over, paths_from}

still_visited :
    (visited : Bytes → Bool) (k target : Bytes)
    → visited target ≡ true
    → update visited k true target ≡ true
unfolding update
still_visited visited k target t = ground (arith, t)

module _ (floats : Floats) (g : Graph) (policy : EvaluationPolicy floats.Float)
    (target : Bytes) where
  open floats use {Float, times, less}

  -- The weight after an endorsement, and at the end of a path.
  abbrev pub damped : Float → Float
  damped weight = times weight policy.decay_factor

  abbrev pub weight_after : Float → List AttestationEdge → Float
  weight_after weight [] = weight
  weight_after weight (e ∷ es) = weight_after (damped weight) es

  -- The weight never falls below the bound on the way.
  abbrev pub IsSignificant : Float → List AttestationEdge → Type 0
  IsSignificant weight [] = Unit {0}
  IsSignificant weight (e ∷ es) =
      (less (damped weight) policy.min_confidence ≡ false) × IsSignificant (damped weight) es

  -- A path that the rules allow, of at most so many endorsements.
  pub record IsRoute (visited : Bytes → Bool) (left : ℕ) (current : Bytes) (weight : Float)
      (es : List AttestationEdge) : Type 0 where
    pub leads : Leads g policy.topic target current es
    pub simple : IsSimple visited es
    pub significant : IsSignificant weight es
    pub short : length es ≤ left

  -- A target that was visited cannot be reached again.
  not_again :
      (visited : Bytes → Bool) (current : Bytes) (e : AttestationEdge) (es : List AttestationEdge)
      → visited target ≡ true
      → IsSimple visited (e ∷ es)
      → Leads g policy.topic target current (e ∷ es)
      → ⊥
  unfolding update
  not_again visited current e [] t (new, s) (o, l) = ground (arith, l, new, ap visited l)
  not_again visited current e (f ∷ es) t (new, s) (o, l) =
      not_again (update visited e.subject true) e.subject f es
        (still_visited visited e.subject target t) s l

  module _ (root : Bytes) (root_weight : Float) where
    -- The trace that the search writes down.
    abbrev pub trace_of : Bytes → Float → List PathHop → List AttestationEdge → PathTrace Float
    trace_of current weight hops es = record {
      root = root;
      root_weight = root_weight;
      hops = hops ++ hops_of current es;
      path_weight = weight_after weight es;
    }

    abbrev pub IsTraced :
        ℕ → Bytes → Float → List PathHop → (Bytes → Bool) → PathTrace Float → Type 0
    IsTraced left current weight hops visited t =
        (es : List AttestationEdge) × IsRoute visited left current weight es
        × (t ≡ trace_of current weight hops es)

    abbrev enumerated : ℕ → Paths floats g policy target root root_weight
    enumerated left = paths_from floats g policy target root root_weight left

    abbrev over :
        ℕ → Bytes → Float → List PathHop → (Bytes → Bool) → AttestationEdge → List (PathTrace Float)
    over left = paths_over floats g policy target root root_weight left (enumerated left)

    trace-cons :
        (current : Bytes) (weight : Float) (hops : List PathHop) (e : AttestationEdge)
        (es : List AttestationEdge)
        → trace_of e.subject (damped weight) (hops ++ hop_of current e ∷ []) es
          ≡ trace_of current weight hops (e ∷ es)
    trace-cons current weight hops e es =
        ap
          (λ hs. record {
            root = root;
            root_weight = root_weight;
            hops = hs;
            path_weight = weight_after (damped weight) es;
          })
          (append_assoc hops (hop_of current e ∷ []) (hops_of e.subject es))

    last_step :
        (left : ℕ) (current : Bytes) (weight : Float) (hops : List PathHop) (visited : Bytes → Bool)
        (e : AttestationEdge) (t : PathTrace Float)
        → IsOffered g policy.topic current e
        → visited e.subject ≡ false
        → less (damped weight) policy.min_confidence ≡ false
        → e.subject ≡ target
        → t ≡ trace_of current weight hops (e ∷ [])
        → IsTraced (suc left) current weight hops visited t
    last_step left current weight hops visited e t o new strong there same = (
      e ∷ [],
      record {
        leads = (o, there);
        simple = (new, tt);
        significant = (strong, tt);
        short = omega arith;
      },
      same,
    )

    further_steps :
        (left : ℕ) (current : Bytes) (weight : Float) (hops : List PathHop) (visited : Bytes → Bool)
        (e : AttestationEdge) (t : PathTrace Float)
        → IsOffered g policy.topic current e
        → visited e.subject ≡ false
        → less (damped weight) policy.min_confidence ≡ false
        → IsTraced left e.subject
            (damped weight)
            (hops ++ hop_of current e ∷ [])
            (update visited e.subject true)
            t
        → IsTraced (suc left) current weight hops visited t
    further_steps left current weight hops visited e t o new strong (es, r, same) = (
      e ∷ es,
      record {
        leads = (o, r.leads);
        simple = (new, r.simple);
        significant = (strong, r.significant);
        short = omega (arith, r.short);
      },
      same ∙ trace-cons current weight hops e es,
    )

    over→IsTraced :
        (left : ℕ)
        → ((c : Bytes) (w : Float) (hs : List PathHop) (v : Bytes → Bool) (t : PathTrace Float)
            → c ≢ target
            → Memᴰ t (enumerated left c w hs v)
            → IsTraced left c w hs v t)
        → (current : Bytes) (weight : Float) (hops : List PathHop) (visited : Bytes → Bool)
          (e : AttestationEdge) (t : PathTrace Float)
        → IsOffered g policy.topic current e
        → Memᴰ t (over left current weight hops visited e)
        → IsTraced (suc left) current weight hops visited t
    unfolding paths_over
    over→IsTraced left below current weight hops visited e t o m =
        elim (Bool-cases (visited e.subject)) [
          | inl seen ↦ absurd (Memᴰ.not-nil (rw seen at m))
          | inr new ↦ elim (Bool-cases (less (damped weight) policy.min_confidence)) [
            | inl faint ↦ absurd (Memᴰ.not-nil (rw (new, faint) at m))
            | inr strong ↦ elim (Bool-cases (bytes_equal e.subject target)) [
              | inl there ↦
                  last_step left current weight hops visited e t o new strong
                    (bytes_equal→eq e.subject target there)
                    (Memᴰ.eq_of_singleton (rw (new, strong, there) at m))
              | inr on ↦ elim (Bool-cases (ltb 0 left)) [
                | inr last ↦ absurd (Memᴰ.not-nil (rw (new, strong, on, last) at m))
                | inl more ↦ further_steps left current weight hops visited e t o new strong (
                    below e.subject (damped weight) (hops ++ hop_of current e ∷ [])
                      (update visited e.subject true) t
                      (λ same. ground (arith, on, bytes_equal_iff e.subject target, same))
                      (rw (new, strong, on, more) at m))
              ]
            ]
          ]
        ]

    step→over :
        (left : ℕ)
        → ((c : Bytes) (w : Float) (hs : List PathHop) (v : Bytes → Bool) (t : PathTrace Float)
            → c ≢ target
            → IsTraced left c w hs v t
            → Memᴰ t (enumerated left c w hs v))
        → (current : Bytes) (weight : Float) (hops : List PathHop) (visited : Bytes → Bool)
          (e : AttestationEdge) (es : List AttestationEdge)
        → IsRoute visited (suc left) current weight (e ∷ es)
        → Memᴰ (trace_of current weight hops (e ∷ es)) (over left current weight hops visited e)
    unfolding paths_over update
    step→over left above current weight hops visited e [] r =
        rw (r.simple.0, r.significant.0, (bytes_equal_iff e.subject target).1 r.leads.1)
          (Memᴰ.head refl)
    step→over left above current weight hops visited e (f ∷ fs) r =
        elim (Bool-cases (bytes_equal e.subject target)) [
          | inl there ↦ absurd (
              not_again (update visited e.subject true) e.subject f fs (rw there refl) r.simple.1
                r.leads.1)
          | inr on ↦
              let more : ltb 0 left ≡ true = ground (arith, r.short) in
              rw (r.simple.0, r.significant.0, on, more)
                (above e.subject (damped weight) (hops ++ hop_of current e ∷ [])
                  (update visited e.subject true) (trace_of current weight hops (e ∷ f ∷ fs))
                  (λ same. ground (arith, on, bytes_equal_iff e.subject target, same))
                  (
                    f ∷ fs,
                    record {
                      leads = r.leads.1;
                      simple = r.simple.1;
                      significant = r.significant.1;
                      short = omega (arith, r.short);
                    },
                    sym (trace-cons current weight hops e (f ∷ fs)),
                  ))
        ]

    paths_from→IsTraced :
        IsIndexed g
        → (left : ℕ) (c : Bytes) (w : Float) (hs : List PathHop) (v : Bytes → Bool)
          (t : PathTrace Float)
        → c ≢ target
        → Memᴰ t (enumerated left c w hs v)
        → IsTraced left c w hs v t
    unfolding paths_from
    paths_from→IsTraced valid zero c w hs v t away m = absurd (Memᴰ.not-nil m)
    paths_from→IsTraced valid (suc left) c w hs v t away m =
        let (e, k, n) =
          (mem-flat_map (over left c w hs v) t (sorted_edges floats g policy target c)).0 m in
        over→IsTraced left (paths_from→IsTraced valid left) c w hs v e t
          ((out_edges_iff g valid policy.topic c e).0 k) n

    IsTraced→paths_from :
        IsIndexed g
        → (left : ℕ) (c : Bytes) (w : Float) (hs : List PathHop) (v : Bytes → Bool)
          (t : PathTrace Float)
        → c ≢ target
        → IsTraced left c w hs v t
        → Memᴰ t (enumerated left c w hs v)
    unfolding paths_from
    IsTraced→paths_from valid left c w hs v t away ([], r, same) = absurd (away r.leads)
    IsTraced→paths_from valid zero c w hs v t away (e ∷ es, r, same) =
        absurd (ground (arith, r.short))
    IsTraced→paths_from valid (suc left) c w hs v t away (e ∷ es, r, same) =
        (mem-flat_map (over left c w hs v) t (sorted_edges floats g policy target c)).1 (
          e,
          (out_edges_iff g valid policy.topic c e).1 r.leads.0,
          subst (λ z. Memᴰ z (over left c w hs v e)) (sym same)
              (step→over left (IsTraced→paths_from valid left) c w hs v e es r),
        )

    -- The enumeration has exactly the paths that the rules allow.
    pub paths_from_iff :
        IsIndexed g
        → (left : ℕ) (current : Bytes) (weight : Float) (hops : List PathHop)
          (visited : Bytes → Bool) (t : PathTrace Float)
        → current ≢ target
        → Memᴰ t
            (paths_from floats g policy target root root_weight left current weight hops visited)
          ↔ IsTraced left current weight hops visited t
    paths_from_iff valid left current weight hops visited t away = (
      paths_from→IsTraced valid left current weight hops visited t away,
      IsTraced→paths_from valid left current weight hops visited t away,
    )
