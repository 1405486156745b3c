-- ===== src/Graph/Store/Revocation.antt =====
-- What a revocation changes for the queries, and what it leaves.
use chain_application.Prelude.{
  ℕ, zero, suc, ◌+◌, ◌≡◌, refl, ap, sym, ◌∙◌, Bytes, List, [], ◌∷◌, true, false, Option, none, some,
  arith, length, get_elem?, set, filter, bytes_equal, bytes_equal_refl, bytes_equal→eq, Bool-cases,
  inl, inr, if◌then◌else◌,
}
use chain_application.Graph.Edge.{AttestationEdge}
use chain_application.Graph.Store.{
  Graph, GraphError, edge_already_revoked, revoke_edge, find_edge, edge_by_digest,
  active_edge_count,
}
use chain_application.Graph.Store.Branches.{
  IsRevoked, withdrawn_edge, revoke_edge-cases, revoke_edge_again,
}
use chain_application.Graph.Store.Entries.{find_from, find_from_sound}
use chain_application.Graph.Store.Invariant.{IsIndexed, find_edge-held, revoke_edge-IsIndexed}
use chain_application.Graph.Store.Queries.{find_edge-find_from, IsIndexed-AnswersFromList}

abbrev Edges : Type 0
Edges = List AttestationEdge

module _ (new old : AttestationEdge) (same : new.record_digest ≡ old.record_digest) where
  -- A write to the edge that is found is found.
  find_from-set_found :
      (n : ℕ) (d : Bytes) (es : Edges) (i : ℕ)
      → find_from n d es ≡ some (n + i, old)
      → find_from n d (set es i new) ≡ some (n + i, new)
  unfolding find_from
  find_from-set_found n d [] i h = ground arith
  find_from-set_found n d (e ∷ es) zero h = elim (Bool-cases (bytes_equal e.record_digest d)) [
    | inl here ↦
        let held : e ≡ old = ground arith in
        let there = same ∙ ap (λ (x : AttestationEdge). x.record_digest) (sym held) in
        ground (arith, there)
    | inr later ↦
        let (j, at, held, found) = find_from_sound (suc n) d es (n + 0) old (ground arith) in
        absurd (omega arith)
  ]
  find_from-set_found n d (e ∷ es) (suc i) h = ground (arith, find_from-set_found (suc n) d es i)

  -- A write to an edge with another digest changes no result.
  find_from-set_other :
      (n : ℕ) (d : Bytes) (es : Edges) (i : ℕ)
      → get_elem? es i ≡ some old
      → bytes_equal old.record_digest d ≡ false
      → find_from n d (set es i new) ≡ find_from n d es
  unfolding find_from
  find_from-set_other n d [] i held h = refl
  find_from-set_other n d (e ∷ es) zero held h = ground arith
  find_from-set_other n d (e ∷ es) (suc i) held h =
      ground (arith, find_from-set_other (suc n) d es i held h)

-- Deactivating one active edge leaves one less.
length-filter-set :
    (es : Edges) (i : ℕ) (old new : AttestationEdge)
    → get_elem? es i ≡ some old
    → old.is_active ≡ true
    → new.is_active ≡ false
    → suc (length (filter (λ e. e.is_active) (set es i new)))
      ≡ length (filter (λ e. e.is_active) es)
length-filter-set [] i old new h a b = ground arith
length-filter-set (e ∷ es) zero old new h a b = ground arith
length-filter-set (e ∷ es) (suc i) old new h a b =
    ground (arith, length-filter-set es i old new h a b)

-- The edge that a revocation through its digest leaves in the map.
abbrev read_after :
    Bytes → AttestationEdge → Bytes → Option AttestationEdge → Option AttestationEdge
read_after target written d before = if bytes_equal target d then some written else before

module _ (target revoker : Bytes) (role at : ℕ) (digest reason : Bytes) (seq : ℕ) (g : Graph)
    (v : IsIndexed g) where
  abbrev after : Graph
  after = (revoke_edge target revoker role at digest reason seq g).0

  abbrev error : Option GraphError
  error = (revoke_edge target revoker role at digest reason seq g).1

  abbrev revoked_cell : AttestationEdge → AttestationEdge
  revoked_cell edge = withdrawn_edge role at digest reason edge

  find_after :
      (r : IsRevoked target revoker role at digest reason seq g after) (d : Bytes)
      → find_edge d after
        ≡ (if bytes_equal target d then some (r.address, revoked_cell r.edge) else find_edge d g)
  find_after r d =
      let cells_after = ap (λ (x : Graph). x.cells) r.result in
      let indexed = revoke_edge-IsIndexed target revoker role at digest reason seq g v in
      let read = find_edge-find_from d after indexed ∙ ap (find_from 0 d) cells_after in
      let found = sym (find_edge-find_from target g v) ∙ r.found in
      let (i, here, held, same) = find_from_sound 0 target g.cells r.address r.edge found in
      let its_digest = bytes_equal→eq r.edge.record_digest target same in
      let new = revoked_cell r.edge in
      elim (Bool-cases (bytes_equal target d)) [
        | inl this ↦
            let that : find_from 0 d g.cells ≡ some (0 + r.address, r.edge) =
              ap (λ x. find_from 0 x g.cells) (sym (bytes_equal→eq target d this))
              ∙ found
              ∙ ground arith in
            rw this
              (read ∙ find_from-set_found new r.edge refl 0 d g.cells r.address that ∙ ground arith)
        | inr other ↦ rw other (
            read
            ∙ find_from-set_other new r.edge refl 0 d g.cells r.address
                (find_edge-held target g r.address r.edge r.found)
                (ap (λ x. bytes_equal x d) its_digest ∙ other)
            ∙ sym (find_edge-find_from d g v))
      ]

  count_after :
      (r : IsRevoked target revoker role at digest reason seq g after)
      → suc (active_edge_count after) ≡ active_edge_count g
  count_after r =
      let indexed = revoke_edge-IsIndexed target revoker role at digest reason seq g v in
      let active = λ (x : Graph). length (filter (λ e. e.is_active) x.cells) in
      ap suc ((IsIndexed-AnswersFromList after indexed).active_edges ∙ ap active r.result)
      ∙ length-filter-set g.cells r.address r.edge (revoked_cell r.edge)
          (find_edge-held target g r.address r.edge r.found) r.active refl
      ∙ sym (IsIndexed-AnswersFromList g v).active_edges

  -- What a client sees of a revocation of `edge`.
  pub record IsVisible (edge : AttestationEdge) : Type 0 where
    pub before : edge_by_digest target g ≡ some edge
    pub lookups :
        (d : Bytes)
        → edge_by_digest d after ≡ read_after target (revoked_cell edge) d (edge_by_digest d g)
    pub active_count : suc (active_edge_count after) ≡ active_edge_count g
    pub again :
        revoke_edge target revoker role at digest reason seq after
        ≡ (after, some edge_already_revoked)

  IsRevoked-IsVisible :
      (r : IsRevoked target revoker role at digest reason seq g after) → IsVisible r.edge
  unfolding edge_by_digest
  IsRevoked-IsVisible r = record {
    before = ground (arith, r.found);
    lookups = λ d. ground (arith, find_after r d);
    active_count = count_after r;
    again =
        revoke_edge_again target revoker role at digest reason seq after r.address
          (revoked_cell r.edge) (ground (arith, find_after r target, bytes_equal_refl target)) refl;
  }

  -- After a revocation that goes through, at a graph with exact indexes: looking up its target
  -- gives the edge that was there, now inactive and with the time, the record, the reason and the
  -- role of the revocation; looking up any other digest gives what it gave before; one active edge
  -- less is counted; and the same revocation, made again, fails as already made and changes nothing.
  pub revoke_edge-IsVisible : error ≡ none → (edge : AttestationEdge) × IsVisible edge
  revoke_edge-IsVisible fine = elim (revoke_edge-cases target revoker role at digest reason seq g) [
    | inl refused ↦ absurd (refused.0 fine)
    | inr (ok, r) ↦ (r.edge, IsRevoked-IsVisible r)
  ]
