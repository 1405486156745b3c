-- ===== src/Graph/Projector/Stored/Ending.antt =====
-- The replay from the store ends, and what it leaves.
use chain_application.Prelude.{
  ℕ, zero, suc, ◌+◌, ◌%◌, ◌<◌, ◌≤◌, ◌≡◌, refl, arith, Bytes, List, [], ◌∷◌, Option, none, some,
  Result, ok, err, ltb, length, Bool-cases, inl, inr,
}
use chain_application.Ledger.Constants.{uint64_mod, max_uint64}
use chain_application.Ledger.Wires.{Libraries}
use chain_application.Ledger.Record.{StructuralRecord}
use chain_application.Endorsement.Wires.{Crypto}
use chain_application.LedgerStore.{StoreError, Database, scan_records}
use chain_application.Graph.Store.{Graph}
use chain_application.Graph.Store.Invariant.{IsIndexed}
use chain_application.Graph.Projector.{Projection, apply_records}
use chain_application.Graph.Projector.Replay.{apply_records-IsIndexed, apply_records-IsReplayed}
use chain_application.Graph.Projector.Stored.{
  Replayed, batch_of, after_batch, after_scan, replay_rounds, replay_from_store,
}

room_of :
    (limit last n : ℕ)
    → limit < max_uint64
    → last ≤ limit
    → (last + 1) % uint64_mod + n ≤ limit + 1
    → last + n ≤ limit
room_of limit last n small l h = omega (arith, small, l, h)

module _ (libraries : Libraries) (crypto : Crypto) (database : Database) where
  open database use {World}

  -- No ledger holds a sequence number above `limit`, so a scan finds no more records than there are
  -- numbers left.
  abbrev pub IsBounded : ℕ → Type 0
  IsBounded limit =
      (id : Bytes) (from batch : ℕ) (world : World) (rs : List StructuralRecord)
      → from ≤ limit + 1
      → (scan_records libraries database id from batch world).1 ≡ ok rs
      → from + length rs ≤ limit + 1

  -- The total counts the rounds of the watermark.
  pub record IsEnded (g : Graph) (total : ℕ) (o : Option (Replayed World)) : Type 0 where
    pub out : Replayed World
    pub ended : o ≡ some out
    pub counted : out.total_applied + g.last_sequence ≡ total + out.graph.last_sequence
    pub indexed : IsIndexed out.graph

  batch-IsEnded :
      (batch size total : ℕ) (world : World) (g : Graph) (o : ℕ × Projection)
      (again : ℕ → Graph → Option (Replayed World))
      → o.1.0.last_sequence ≡ g.last_sequence + o.0
      → IsIndexed o.1.0
      → (o.1.1 ≡ none → IsEnded o.1.0 (total + o.0) (again o.0 o.1.0))
      → IsEnded g total (after_batch libraries crypto database batch size world total o again)
  batch-IsEnded batch size total world g (n, (after, some e)) again w v h = record {
    out = _;
    ended = refl;
    counted = ground arith;
    indexed = v;
  }
  batch-IsEnded batch size total world g (n, (after, none)) again w v h =
      elim (Bool-cases (ltb size batch)) [
        | inl short ↦
            rw short (record { out = _; ended = refl; counted = ground arith; indexed = v })
        | inr full ↦
            let rest = h refl in
            rw full (record {
              out = rest.out;
              ended = rest.ended;
              counted = ground (arith, rest.counted);
              indexed = rest.indexed;
            })
      ]

  -- A round on an answer that fits below the last sequence number, where the next round ends.
  scan-IsEnded :
      (batch total : ℕ) (world : World) (g : Graph)
      (answer : Result StoreError (List StructuralRecord))
      (again : ℕ → Graph → Option (Replayed World))
      → IsIndexed g
      → ((rs : List StructuralRecord) → answer ≡ ok rs → g.last_sequence + length rs < max_uint64)
      → ((n : ℕ) (after : Graph)
          → IsIndexed after
          → after.last_sequence ≡ g.last_sequence + n
          → 0 < n
          → (rs : List StructuralRecord) × (answer ≡ ok rs) × (n ≡ length rs)
          → IsEnded after (total + n) (again n after))
      → IsEnded g total (after_scan libraries crypto database batch world total g answer again)
  scan-IsEnded batch total world g (err e) again v fits h = record {
    out = _;
    ended = refl;
    counted = refl;
    indexed = v;
  }
  scan-IsEnded batch total world g (ok []) again v fits h = record {
    out = _;
    ended = refl;
    counted = refl;
    indexed = v;
  }
  scan-IsEnded batch total world g (ok (r ∷ rs)) again v fits h =
      let o = apply_records crypto (r ∷ rs) g in
      let p = apply_records-IsReplayed crypto (r ∷ rs) g (fits (r ∷ rs) refl) in
      let w = apply_records-IsIndexed crypto (r ∷ rs) g v in
      batch-IsEnded batch (length (r ∷ rs)) total world g o again p.watermark w (λ fine.
        h o.0 o.1.0 w p.watermark (ground (arith, p.complete fine)) (r ∷ rs, refl, p.complete fine))

  rounds-IsEnded :
      (limit : ℕ)
      → limit < max_uint64
      → IsBounded limit
      → (fuel batch total : ℕ) (world : World) (g : Graph) → IsIndexed g
      → g.last_sequence ≤ limit
      → limit < g.last_sequence + fuel
      → IsEnded g total (replay_rounds libraries crypto database fuel batch total world g)
  unfolding replay_rounds
  rounds-IsEnded limit small bounded zero batch total world g v l f = absurd (omega (arith, l, f))
  rounds-IsEnded limit small bounded (suc fuel) batch total world g v l f =
      let start = (g.last_sequence + 1) % uint64_mod in
      let answer = (scan_records libraries database g.ledger_id start batch world).1 in
      let room : (rs : List StructuralRecord)
          → answer ≡ ok rs
          → g.last_sequence + length rs ≤ limit =
        λ rs e.
          room_of limit g.last_sequence (length rs) small l
            (bounded g.ledger_id start batch world rs (omega (arith, small, l)) e) in
      scan-IsEnded batch total _ g answer _ v (λ rs e. omega (arith, room rs e, small))
        (λ n after w up pos (rs, e, all).
          rounds-IsEnded limit small bounded fuel batch (total + n) _ after w
            (ground (arith, room rs e)) (omega (arith, up, pos, f)))

  -- Where no ledger has more sequence numbers than a bound below the last uint64, the replay from
  -- the store ends within as many rounds as there are numbers left, and one: the total is how far the
  -- watermark has moved, and every index of the graph is exact, whatever error the replay ended with.
  pub replay_from_store-IsEnded :
      (limit : ℕ)
      → limit < max_uint64
      → IsBounded limit
      → (fuel batch_size : ℕ) (world : World) (g : Graph) → IsIndexed g
      → g.last_sequence ≤ limit
      → limit < g.last_sequence + fuel
      → IsEnded g 0 (replay_from_store libraries crypto database fuel batch_size world g)
  unfolding replay_from_store
  replay_from_store-IsEnded limit small bounded fuel batch_size world g v l f =
      rounds-IsEnded limit small bounded fuel (batch_of batch_size) 0 world g v l f
