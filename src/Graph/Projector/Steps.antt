-- ===== src/Graph/Projector/Steps.antt =====
-- What the projection of one record does, on each of its branches.
use chain_application.Prelude.{
  ℕ, ◌≡◌, ◌≢◌, [], ◌∷◌, lookup, length-append, length-set, ◌⊎◌, refl, arith, Bytes, Option, none,
  some, ◌+◌, ◌<◌, ok, Result-cases, true, ◌==◌, if◌then◌else◌, length, Option-cases, Bool-cases,
  inl, inr, bytes_equal, bytes_equal→eq, ◌∙◌, Bool, false, ◌&&◌,
}
use chain_application.Ledger.Constants.{
  event_kind_endorsement_revoked, max_uint64, event_kind_endorsement_accepted,
}
use chain_application.Ledger.Record.{StructuralRecord}
use chain_application.Endorsement.Wires.{Crypto}
use chain_application.Graph.Edge.{AttestationEdge}
use chain_application.Graph.Store.{
  Graph, GraphError, set_last_sequence, duplicate_edge, revoked_edge, raised, added, add_edge,
  revoke_edge,
}
use chain_application.Graph.Store.Branches.{add_edge_new, revoke_edge-cases}
use chain_application.Graph.Projector.{
  Projection, Revocation, continues, reported, add_decoded, revoke_decoded, accepted_edge,
  revocation, project, apply_record,
}

-- What a record that is projected has to do with the graph before it.
pub record IsNext (r : StructuralRecord) (g after : Graph) : Type 0 where
  pub same_ledger : r.event.ledger_id ≡ g.ledger_id
  pub follows : r.event.sequence ≡ g.last_sequence + 1
  pub watermark : after.last_sequence ≡ g.last_sequence + 1
  pub kept_ledger : after.ledger_id ≡ g.ledger_id
  pub edges :
      length after.cells
      ≡ length g.cells + (if r.event.kind == event_kind_endorsement_accepted then 1 else 0)

follows_from : (last seq : ℕ) → last < max_uint64 → continues last seq ≡ true → seq ≡ last + 1
unfolding continues
follows_from last seq h c = ground arith

raised_next : (last : ℕ) → raised (last + 1) last ≡ last + 1
raised_next last = ground arith

-- What a change of the graph that succeeds may be, `n` being the edges that it adds.
record IsStep (seq n : ℕ) (g after : Graph) : Type 0 where
  watermark : (last : ℕ) → g.last_sequence ≡ last → seq ≡ last + 1 → after.last_sequence ≡ seq
  kept_ledger : after.ledger_id ≡ g.ledger_id
  edges : length after.cells ≡ length g.cells + n

abbrev Branch : ℕ → ℕ → Graph → Projection → Type 0
Branch seq n g o = ((o.1 ≢ none) × (o.0 ≡ g)) ⊎ ((o.1 ≡ none) × IsStep seq n g o.0)

set_last_sequence-Branch : (seq : ℕ) (g : Graph) → Branch seq 0 g (set_last_sequence seq g, none)
set_last_sequence-Branch seq g =
    inr (refl, record { watermark = λ l h e. refl; kept_ledger = refl; edges = ground arith })

-- The error of a method of the graph is reported, and nothing else.
reported-Branch :
    (seq n : ℕ) (g : Graph) (o : Graph × Option GraphError)
    → ((o.1 ≢ none) × (o.0 ≡ g)) ⊎ ((o.1 ≡ none) × IsStep seq n g o.0)
    → Branch seq n g (reported o)
reported-Branch seq n g (after, some e) (inl (bad, same)) = inl (ground arith, same)
reported-Branch seq n g (after, none) (inl (bad, same)) = absurd (bad refl)
reported-Branch seq n g (after, some e) (inr (fine, step)) = absurd (ground arith)
reported-Branch seq n g (after, none) (inr (fine, step)) = inr (refl, step)

added-IsStep : (edge : AttestationEdge) (g : Graph) → IsStep edge.sequence 1 g (added edge g)
added-IsStep edge g = record {
  watermark = λ last held e. rw (e, held) (raised_next last);
  kept_ledger = refl;
  edges = length-append g.cells (edge ∷ []);
}

add_edge_duplicate :
    (edge : AttestationEdge) (g : Graph) (a : ℕ)
    → lookup edge.record_digest g.edges_by_digest ≡ some a
    → add_edge (some edge) g ≡ (g, some duplicate_edge)
unfolding add_edge
add_edge_duplicate edge g a h = ground arith

add_edge-Branch :
    (edge : AttestationEdge) (g : Graph)
    → Branch edge.sequence 1 g (reported (add_edge (some edge) g))
add_edge-Branch edge g =
    reported-Branch edge.sequence 1 g (add_edge (some edge) g)
      (elim (Option-cases (lookup edge.record_digest g.edges_by_digest)) [
        | inl new ↦ rw (add_edge_new edge g new) (inr (refl, added-IsStep edge g))
        | inr (a, old) ↦ rw (add_edge_duplicate edge g a old) (inl (ground arith, refl))
      ])

revoke_edge-Branch :
    (v : Revocation) (digest : Bytes) (seq : ℕ) (g : Graph)
    → Branch seq 0 g (reported (revoke_edge v.target v.revoker v.role v.at digest v.reason seq g))
revoke_edge-Branch v digest seq g =
    reported-Branch seq 0 g (revoke_edge v.target v.revoker v.role v.at digest v.reason seq g)
      (elim (revoke_edge-cases v.target v.revoker v.role v.at digest v.reason seq g) [
        | inl refused ↦ inl refused
        | inr (fine, r) ↦ inr (
          fine,
          rw r.result (record {
            watermark = λ last held e. rw (e, held) (raised_next last);
            kept_ledger = refl;
            edges = ground (
              arith,
              length-set g.cells r.address (revoked_edge v.role v.at digest v.reason r.edge),
            );
          }),
        )
      ])

accepted_edge-sequence :
    (crypto : Crypto) (r : StructuralRecord) (edge : AttestationEdge)
    → accepted_edge crypto r ≡ ok edge
    → edge.sequence ≡ r.event.sequence
unfolding accepted_edge
accepted_edge-sequence crypto r edge h = ground arith

abbrev added_by : ℕ → ℕ
added_by kind = if kind == event_kind_endorsement_accepted then 1 else 0

module _ (crypto : Crypto) (r : StructuralRecord) (g : Graph) where
  accepted-Branch : Branch r.event.sequence 1 g (add_decoded g (accepted_edge crypto r))
  accepted-Branch = elim (Result-cases (accepted_edge crypto r)) [
    | inl (edge, e) ↦ rw e (rw (← accepted_edge-sequence crypto r edge e) (add_edge-Branch edge g))
    | inr (x, e) ↦ rw e (inl (ground arith, refl))
  ]

  revoked-Branch : Branch r.event.sequence 0 g (revoke_decoded r g (revocation crypto r))
  revoked-Branch = elim (Result-cases (revocation crypto r)) [
    | inl (v, e) ↦ rw e (revoke_edge-Branch v r.record_digest r.event.sequence g)
    | inr (x, e) ↦ rw e (inl (ground arith, refl))
  ]

  abbrev is_kind : ℕ → Bool
  is_kind kind = r.event.kind == kind

  project_accepted :
      is_kind event_kind_endorsement_accepted ≡ true
      → project crypto r g ≡ add_decoded g (accepted_edge crypto r)
  unfolding project
  project_accepted h = ground arith

  project_revoked :
      is_kind event_kind_endorsement_revoked ≡ true
      → project crypto r g ≡ revoke_decoded r g (revocation crypto r)
  unfolding project
  project_revoked h = ground arith

  project_other :
      is_kind event_kind_endorsement_accepted ≡ false
      → is_kind event_kind_endorsement_revoked ≡ false
      → project crypto r g ≡ (set_last_sequence r.event.sequence g, none)
  unfolding project
  project_other h k = ground arith

  project-Branch : Branch r.event.sequence (added_by r.event.kind) g (project crypto r g)
  project-Branch = elim (Bool-cases (is_kind event_kind_endorsement_accepted)) [
    | inl a ↦ rw (project_accepted a, a) accepted-Branch
    | inr na ↦ elim (Bool-cases (is_kind event_kind_endorsement_revoked)) [
      | inl b ↦ rw (project_revoked b, na) revoked-Branch
      | inr nb ↦ rw (project_other na nb, na) (set_last_sequence-Branch r.event.sequence g)
    ]
  ]

  apply_record_refused :
      (bytes_equal r.event.ledger_id g.ledger_id && continues g.last_sequence r.event.sequence)
        ≡ false
      → ((apply_record crypto r g).1 ≢ none) × ((apply_record crypto r g).0 ≡ g)
  unfolding apply_record
  apply_record_refused h = ground arith

  apply_record_next :
      bytes_equal r.event.ledger_id g.ledger_id ≡ true
      → continues g.last_sequence r.event.sequence ≡ true
      → apply_record crypto r g ≡ project crypto r g
  unfolding apply_record
  apply_record_next h c = ground arith

  -- The projection of a record fails and leaves the graph as it was, or the record is the next one
  -- of the graph's ledger, and then the watermark goes up by one, and one edge is added for an
  -- endorsement and none for any other record. The last sequence number is below the last uint64.
  pub apply_record-cases :
      g.last_sequence < max_uint64
      → (((apply_record crypto r g).1 ≢ none) × ((apply_record crypto r g).0 ≡ g))
        ⊎ (((apply_record crypto r g).1 ≡ none) × IsNext r g (apply_record crypto r g).0)
  apply_record-cases h = elim (Bool-cases (bytes_equal r.event.ledger_id g.ledger_id)) [
    | inr other ↦ inl (apply_record_refused (ground arith))
    | inl same ↦ elim (Bool-cases (continues g.last_sequence r.event.sequence)) [
      | inr gap ↦ inl (apply_record_refused (ground arith))
      | inl next ↦ rw (apply_record_next same next) (next_of same next project-Branch)
    ]
  ]
    where
      next_of :
          bytes_equal r.event.ledger_id g.ledger_id ≡ true
          → continues g.last_sequence r.event.sequence ≡ true
          → Branch r.event.sequence (added_by r.event.kind) g (project crypto r g)
          → (((project crypto r g).1 ≢ none) × ((project crypto r g).0 ≡ g))
            ⊎ (((project crypto r g).1 ≡ none) × IsNext r g (project crypto r g).0)
      next_of same next (inl failed) = inl failed
      next_of same next (inr (fine, step)) =
          let e : r.event.sequence ≡ g.last_sequence + 1 =
            follows_from g.last_sequence r.event.sequence h next in
          inr (
            fine,
            record {
              same_ledger = bytes_equal→eq r.event.ledger_id g.ledger_id same;
              follows = e;
              watermark = step.watermark g.last_sequence refl e ∙ e;
              kept_ledger = step.kept_ledger;
              edges = step.edges;
            },
          )

  -- What fails changes nothing.
  pub apply_record_unchanged : (apply_record crypto r g).1 ≢ none → (apply_record crypto r g).0 ≡ g
  apply_record_unchanged failed = elim (Bool-cases (bytes_equal r.event.ledger_id g.ledger_id)) [
    | inr other ↦ (apply_record_refused (ground arith)).1
    | inl same ↦ elim (Bool-cases (continues g.last_sequence r.event.sequence)) [
      | inr gap ↦ (apply_record_refused (ground arith)).1
      | inl next ↦
          let e = apply_record_next same next in
          elim project-Branch [
            | inl (bad, kept) ↦ rw e kept
            | inr (fine, step) ↦ absurd (failed (rw e fine))
          ]
    ]
  ]
