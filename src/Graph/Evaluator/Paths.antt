-- ===== src/Graph/Evaluator/Paths.antt =====
-- The search against a pure enumeration: it adds the paths of the enumeration, one after the other,
-- and leaves the visited identities as they were.
use chain_application.Prelude.{
  ℕ, zero, suc, ◌≡◌, refl, sym, ap, ◌∙◌, fun_ext, arith, Bytes, List, [], ◌∷◌, ◌++◌, Bool, true,
  false, ltb, bytes_equal, bytes_equal→eq, update, flat_map, Floats, if◌then◌else◌, Bool-cases, inl,
  inr,
}
use chain_application.Graph.Edge.{AttestationEdge}
use chain_application.Graph.Store.{Graph}
use chain_application.Graph.Policy.{EvaluationPolicy}
use chain_application.Graph.Provenance.{PathHop, PathTrace}
use chain_application.Graph.Evaluator.{
  Found, Search, add_path, hop_of, sorted_edges, Visit, descend, visit_edge, visit_edges,
  find_paths,
}

-- The paths, added in their order.
unfoldable pub add_paths :
    {Float : Type 0} → Graph → Bytes → List (PathTrace Float) → Found Float → Found Float
add_paths g target [] f = f
add_paths g target (t ∷ ts) f = add_paths g target ts (add_path g target t f)

pub add_paths-append :
    {Float : Type 0} (g : Graph) (target : Bytes) (xs ys : List (PathTrace Float)) (f : Found Float)
    → add_paths g target (xs ++ ys) f ≡ add_paths g target ys (add_paths g target xs f)
unfolding add_paths
add_paths-append g target [] ys f = refl
add_paths-append g target (x ∷ xs) ys f = add_paths-append g target xs ys (add_path g target x f)

-- What is written before the recursive call is taken back after it.
update_back : (v : Bytes → Bool) (k : Bytes) → v k ≡ false → update (update v k true) k false ≡ v
unfolding update
update_back v k h = fun_ext (λ j. elim (Bool-cases (bytes_equal k j)) [
  | inl same ↦ rw same (sym h ∙ ap v (bytes_equal→eq k j same))
  | inr other ↦ rw other refl
])

module _ (floats : Floats) (g : Graph) (policy : EvaluationPolicy floats.Float)
    (target root : Bytes) (root_weight : floats.Float) where
  open floats use {Float, times, less}

  abbrev pub Paths : Type 0
  Paths = Bytes → Float → List PathHop → (Bytes → Bool) → List (PathTrace Float)

  -- The paths that go on over one edge.
  unfoldable pub paths_over :
      ℕ
      → Paths
      → Bytes
      → Float
      → List PathHop
      → (Bytes → Bool)
      → AttestationEdge
      → List (PathTrace Float)
  paths_over left further current weight hops visited edge =
      let path_weight = times weight policy.decay_factor in
      let next_hops = hops ++ hop_of current edge ∷ [] in
      if visited edge.subject
      then []
      else if less path_weight policy.min_confidence
      then []
      else if bytes_equal edge.subject target
      then record {
        root = root;
        root_weight = root_weight;
        hops = next_hops;
        path_weight = path_weight;
      }
        ∷ []
      else if ltb 0 left
      then further edge.subject path_weight next_hops (update visited edge.subject true)
      else []

  -- The paths that go on from an identity.
  unfoldable pub paths_from : ℕ → Paths
  paths_from zero current weight hops visited = []
  paths_from (suc left) current weight hops visited =
      flat_map (paths_over left (paths_from left) current weight hops visited)
        (sorted_edges floats g policy target current)

  -- A search that adds these paths and changes nothing else.
  abbrev pub Adds : Visit floats g policy target → Paths → Type 0
  Adds visit paths =
      (current : Bytes) (weight : Float) (hops : List PathHop) (s : Search Float)
      → visit current weight hops s
        ≡ record s { found = add_paths g target (paths current weight hops s.visited) s.found }

  descend-Adds :
      (visit : Visit floats g policy target) (further : Paths)
      → Adds visit further
      → (next : Bytes) (weight : Float) (hops : List PathHop) (s : Search Float)
      → s.visited next ≡ false
      → descend floats g policy target visit next weight hops s ≡ record s {
        found = add_paths g target (further next weight hops (update s.visited next true)) s.found;
      }
  descend-Adds visit further adds next weight hops s new =
      ap (λ (after : Search Float). record after { visited = update after.visited next false })
        (adds next weight hops (record s { visited = update s.visited next true }))
      ∙ ap
          (λ v. record {
            visited = v;
            found =
                add_paths g target (further next weight hops (update s.visited next true)) s.found;
          })
          (update_back s.visited next new)

  visit_edge-Adds :
      (left : ℕ) (visit : Visit floats g policy target) (further : Paths)
      → Adds visit further
      → (current : Bytes) (weight : Float) (hops : List PathHop) (edge : AttestationEdge)
        (s : Search Float)
      → visit_edge floats g policy target root root_weight left visit current weight hops edge s
        ≡ record s {
          found =
              add_paths g target
                (paths_over left further current weight hops s.visited edge)
                s.found;
        }
  unfolding visit_edge paths_over add_paths
  visit_edge-Adds left visit further adds current weight hops edge s =
      elim (Bool-cases (s.visited edge.subject)) [
        | inl seen ↦ ground (arith, seen)
        | inr new ↦ ground (
          arith,
          new,
          descend-Adds visit further adds edge.subject (times weight policy.decay_factor)
              (hops ++ hop_of current edge ∷ []) s new,
        )
      ]

  visit_edges-Adds :
      (body : AttestationEdge → Search Float → Search Float)
      (over : (Bytes → Bool) → AttestationEdge → List (PathTrace Float))
      → ((e : AttestationEdge) (s : Search Float)
          → body e s ≡ record s { found = add_paths g target (over s.visited e) s.found })
      → (es : List AttestationEdge) (s : Search Float)
      → visit_edges floats g policy target body es s
        ≡ record s { found = add_paths g target (flat_map (over s.visited) es) s.found }
  unfolding visit_edges add_paths
  visit_edges-Adds body over adds [] s = refl
  visit_edges-Adds body over adds (e ∷ es) s =
      ap (visit_edges floats g policy target body es) (adds e s)
      ∙ visit_edges-Adds body over adds es
          (record s { found = add_paths g target (over s.visited e) s.found })
      ∙ ap (λ f. record s { found = f })
          (sym
            (add_paths-append g target (over s.visited e) (flat_map (over s.visited) es) s.found))

  -- A search over `left` depths adds exactly the paths of the enumeration, in its order, and the
  -- identities that count as visited are the same after it as before.
  pub find_paths-Adds :
      (left : ℕ) → Adds (find_paths floats g policy target root root_weight left) (paths_from left)
  unfolding find_paths paths_from add_paths
  find_paths-Adds zero current weight hops s = refl
  find_paths-Adds (suc left) current weight hops s =
      visit_edges-Adds
        (visit_edge floats g policy target root root_weight left
          (find_paths floats g policy target root root_weight left) current weight hops)
        (paths_over left (paths_from left) current weight hops)
        (λ e t.
          visit_edge-Adds left (find_paths floats g policy target root root_weight left)
            (paths_from left) (find_paths-Adds left) current weight hops e t)
        (sorted_edges floats g policy target current) s
