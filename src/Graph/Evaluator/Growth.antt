-- ===== src/Graph/Evaluator/Growth.antt =====
-- How the accumulators of an evaluation grow: by the paths of the enumerations, and by their digests.
use chain_application.Prelude.{
  ◌≡◌, inl, inr, refl, sym, ap, ◌∙◌, Bytes, List, [], ◌∷◌, ◌++◌, append_assoc, bytes_equal,
  flat_map, pos_part, Floats, if◌then◌else◌, Bool-cases, append-nil, add_key, insert, none, some,
}
use chain_application.Graph.Store.{Graph, edge_by_digest}
use chain_application.Graph.Policy.{EvaluationPolicy}
use chain_application.Graph.Provenance.{PathHop, PathTrace}
use chain_application.Graph.Evaluator.{
  Found, add_hops, add_path, only_visited, search_root, search_roots,
}
use chain_application.Graph.Evaluator.Paths.{add_paths, paths_from, find_paths-Adds}

abbrev pub digests_of : List PathHop → List Bytes
digests_of [] = []
digests_of (h ∷ hs) = h.record_digest ∷ digests_of hs

-- The records that the hops of the paths name, in their order.
abbrev pub digests_on : {Float : Type 0} → List (PathTrace Float) → List Bytes
digests_on ts = flat_map (λ t. digests_of t.hops) ts

-- What was found, of the paths and of the digests.
abbrev pub IsGrown : {Float : Type 0} → List (PathTrace Float) → Found Float → Found Float → Type 0
IsGrown ts f g = (g.all_paths ≡ f.all_paths ++ ts) × (g.digests ≡ f.digests ++ digests_on ts)

add_hops-eq :
    {Float : Type 0} (g : Graph) (hs : List PathHop) (f : Found Float)
    → ((add_hops g hs f).all_paths ≡ f.all_paths)
      × ((add_hops g hs f).digests ≡ f.digests ++ digests_of hs)
unfolding add_hops
add_hops-eq g [] f = (refl, sym (append-nil f.digests))
add_hops-eq g (h ∷ hs) f =
    let later = record f {
      nodes = add_key h.to (add_key h.from f.nodes);
      edges = elim (edge_by_digest h.record_digest g) [
        | none ↦ f.edges
        | some edge ↦ insert h.record_digest edge f.edges
      ];
      digests = f.digests ++ h.record_digest ∷ [];
    } in
    let (p, d) = add_hops-eq g hs later in
    (p, d ∙ append_assoc f.digests (h.record_digest ∷ []) (digests_of hs))

add_paths-IsGrown :
    {Float : Type 0} (g : Graph) (target : Bytes) (ts : List (PathTrace Float)) (f : Found Float)
    → IsGrown ts f (add_paths g target ts f)
unfolding add_paths add_path
add_paths-IsGrown g target [] f = (sym (append-nil f.all_paths), sym (append-nil f.digests))
add_paths-IsGrown g target (t ∷ ts) f =
    let after = add_path g target t f in
    let (p, d) = add_paths-IsGrown g target ts after in
    let (q, e) = add_hops-eq g t.hops (record f {
      all_paths = f.all_paths ++ t ∷ [];
      nodes = add_key target (add_key t.root f.nodes);
    }) in
    (
      p ∙ ap (λ z. z ++ ts) q ∙ append_assoc f.all_paths (t ∷ []) ts,
      d
          ∙ ap (λ z. z ++ digests_on ts) e
          ∙ append_assoc f.digests (digests_of t.hops) (digests_on ts),
    )

digests_on-append :
    {Float : Type 0} (xs ys : List (PathTrace Float))
    → digests_on (xs ++ ys) ≡ digests_on xs ++ digests_on ys
digests_on-append [] ys = refl
digests_on-append (x ∷ xs) ys =
    ap (λ z. digests_of x.hops ++ z) (digests_on-append xs ys)
    ∙ sym (append_assoc (digests_of x.hops) (digests_on xs) (digests_on ys))

module _ (floats : Floats) (g : Graph) (policy : EvaluationPolicy floats.Float)
    (target : Bytes) where
  open floats use {Float}

  -- The paths from a trust root, none if it is the target.
  abbrev pub paths_of : Bytes × Float → List (PathTrace Float)
  paths_of (root, weight) =
      paths_from floats g policy target root weight (pos_part policy.max_hops) root weight []
        (only_visited floats g policy target root)

  abbrev pub root_paths : Bytes × Float → List (PathTrace Float)
  root_paths (root, weight) = if bytes_equal root target then [] else paths_of (root, weight)

  search_root-IsGrown :
      (r : Bytes × Float) (f : Found Float)
      → IsGrown (root_paths r) f (search_root floats g policy target r f)
  unfolding search_root
  search_root-IsGrown (root, weight) f = elim (Bool-cases (bytes_equal root target)) [
    | inl same ↦ rw same (sym (append-nil f.all_paths), sym (append-nil f.digests))
    | inr other ↦
        rw
          (
            other,
            find_paths-Adds floats g policy target root weight (pos_part policy.max_hops) root
                weight []
                (record { visited = only_visited floats g policy target root; found = f }),
          )
          (add_paths-IsGrown g target (paths_of (root, weight)) f)
  ]

  pub search_roots-IsGrown :
      (rs : List (Bytes × Float)) (f : Found Float)
      → IsGrown (flat_map root_paths rs) f (search_roots floats g policy target rs f)
  unfolding search_roots
  search_roots-IsGrown [] f = (sym (append-nil f.all_paths), sym (append-nil f.digests))
  search_roots-IsGrown (r ∷ rs) f =
      let (p, d) = search_root-IsGrown r f in
      let (q, e) = search_roots-IsGrown rs (search_root floats g policy target r f) in
      let later = flat_map root_paths rs in
      (
        q ∙ ap (λ z. z ++ later) p ∙ append_assoc f.all_paths (root_paths r) later,
        e
            ∙ ap (λ z. z ++ digests_on later) d
            ∙ append_assoc f.digests (digests_on (root_paths r)) (digests_on later)
            ∙ ap (λ z. f.digests ++ z) (sym (digests_on-append (root_paths r) later)),
      )
