-- ===== src/Graph/Projector/Replay.antt =====
-- Replaying a batch of records: how far it gets, and where it stops.
use chain_application.Prelude.{
  ℕ, suc, ◌+◌, ◌<◌, ◌≡◌, ◌≢◌, refl, ap, ◌∙◌, List, [], ◌∷◌, none, some, arith, length, take, drop,
  Option-cases, inl, inr,
}
use chain_application.Ledger.Constants.{max_uint64}
use chain_application.Ledger.Record.{StructuralRecord}
use chain_application.Endorsement.Wires.{Crypto}
use chain_application.Graph.Store.{Graph}
use chain_application.Graph.Store.Invariant.{IsIndexed}
use chain_application.Graph.Projector.{
  Projection, ProjectionError, apply_record, counted, apply_records,
}
use chain_application.Graph.Projector.Indexed.{apply_record-IsIndexed}
use chain_application.Graph.Projector.Steps.{IsNext, apply_record-cases, apply_record_unchanged}

-- What a batch does to a graph: `n` records are applied, and they are a batch that is applied
-- without an error; an error is that of the record after them, and the records that are left fail
-- on the graph again, with the same error.
pub record IsReplayed (crypto : Crypto) (rs : List StructuralRecord) (g : Graph)
    (o : ℕ × Projection) : Type 0 where
  pub watermark : o.1.0.last_sequence ≡ g.last_sequence + o.0
  pub applied : apply_records crypto (take o.0 rs) g ≡ (o.0, (o.1.0, none))
  pub complete : o.1.1 ≡ none → o.0 ≡ length rs
  pub stopped : o.1.1 ≢ none → o.0 < length rs
  pub stuck : o.1.1 ≢ none → apply_records crypto (drop o.0 rs) o.1.0 ≡ (0, o.1)

module _ (crypto : Crypto) where
  pub apply_records_more :
      (r : StructuralRecord) (rs : List StructuralRecord) (g : Graph)
      → (apply_record crypto r g).1 ≡ none
      → apply_records crypto (r ∷ rs) g
        ≡ counted (apply_records crypto rs (apply_record crypto r g).0)
  unfolding apply_records
  apply_records_more r rs g h = ground arith

  pub apply_records_stop :
      (r : StructuralRecord) (rs : List StructuralRecord) (g : Graph) (e : ProjectionError)
      → (apply_record crypto r g).1 ≡ some e
      → apply_records crypto (r ∷ rs) g ≡ (0, (g, some e))
  unfolding apply_records
  apply_records_stop r rs g e h = ground (arith, apply_record_unchanged crypto r g)

  -- A batch keeps every index exact, whether all of it is applied or not.
  pub apply_records-IsIndexed :
      (rs : List StructuralRecord) (g : Graph)
      → IsIndexed g
      → IsIndexed (apply_records crypto rs g).1.0
  unfolding apply_records
  apply_records-IsIndexed [] g v = v
  apply_records-IsIndexed (r ∷ rs) g v = elim (Option-cases (apply_record crypto r g).1) [
    | inl fine ↦ rw (apply_records_more r rs g fine) (
        apply_records-IsIndexed rs (apply_record crypto r g).0
          (apply_record-IsIndexed crypto r g v))
    | inr (e, bad) ↦ rw (apply_records_stop r rs g e bad) v
  ]

  counted-IsReplayed :
      (r : StructuralRecord) (rs : List StructuralRecord) (g : Graph) (o : ℕ × Projection)
      → (apply_record crypto r g).1 ≡ none
      → IsNext r g (apply_record crypto r g).0
      → IsReplayed crypto rs (apply_record crypto r g).0 o
      → IsReplayed crypto (r ∷ rs) g (counted o)
  counted-IsReplayed r rs g (n, (after, e)) fine next v = record {
    watermark = ground (arith, v.watermark, next.watermark);
    applied = apply_records_more r (take n rs) g fine ∙ ap counted v.applied;
    complete = λ h. ap suc (v.complete h);
    stopped = λ h. ground (arith, v.stopped h);
    stuck = λ h. v.stuck h;
  }

  apply_none : (g : Graph) → apply_records crypto [] g ≡ (0, (g, none))
  unfolding apply_records
  apply_none g = refl

  stopped-IsReplayed :
      (r : StructuralRecord) (rs : List StructuralRecord) (g : Graph)
      → (apply_record crypto r g).1 ≢ none
      → IsReplayed crypto (r ∷ rs) g (apply_records crypto (r ∷ rs) g)
  stopped-IsReplayed r rs g failed = elim (Option-cases (apply_record crypto r g).1) [
    | inl fine ↦ absurd (failed fine)
    | inr (e, bad) ↦ rw (apply_records_stop r rs g e bad) (record {
      watermark = ground arith;
      applied = apply_none g;
      complete = λ h. absurd (ground arith);
      stopped = λ h. ground arith;
      stuck = λ h. apply_records_stop r rs g e bad;
    })
  ]

  -- A batch that fits below the last sequence number is applied as far as its first record that
  -- fails: the watermark goes up by the number of records applied, the records applied are a batch
  -- without an error, without an error they are all of it, and with one the rest of the batch fails
  -- on the graph again at once, with the same error and the same graph.
  pub apply_records-IsReplayed :
      (rs : List StructuralRecord) (g : Graph)
      → g.last_sequence + length rs < max_uint64
      → IsReplayed crypto rs g (apply_records crypto rs g)
  unfolding apply_records
  apply_records-IsReplayed [] g h = record {
    watermark = ground arith;
    applied = refl;
    complete = λ e. refl;
    stopped = λ e. absurd (e refl);
    stuck = λ e. absurd (e refl);
  }
  apply_records-IsReplayed (r ∷ rs) g h = elim (apply_record-cases crypto r g (ground arith)) [
    | inl (bad, kept) ↦ stopped-IsReplayed r rs g bad
    | inr (fine, next) ↦ rw (apply_records_more r rs g fine) (
        counted-IsReplayed r rs g (apply_records crypto rs (apply_record crypto r g).0) fine next (
          apply_records-IsReplayed rs (apply_record crypto r g).0 (ground (arith, next.watermark))))
  ]
