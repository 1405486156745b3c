-- ===== src/Graph/Projector/Stored/Whole.antt =====
-- The records that a replay without an error has applied.
use chain_application.Prelude.{
  ℕ, zero, suc, ◌+◌, ◌%◌, ◌^◌, ◌<◌, ◌≡◌, ◌⊎◌, refl, subst, arith, List, [], ◌∷◌, Option, none, some,
  Result, ok, err, ltb, length, ◌==◌, if◌then◌else◌, Bool-cases, Option-cases, inl, inr,
}
use chain_application.Ledger.Wires.{Libraries}
use chain_application.Ledger.Record.{StructuralRecord}
use chain_application.Endorsement.Wires.{Crypto}
use chain_application.LedgerStore.{StoreError, Database, scan_records}
use chain_application.Graph.Store.{Graph}
use chain_application.Graph.Projector.{apply_record, apply_records}
use chain_application.Graph.Projector.Replay.{apply_records_stop, apply_records_more}
use chain_application.Graph.Projector.Stored.{
  Replayed, batch_of, after_batch, after_scan, replay_rounds, replay_from_store,
}

-- Every one of the records is applied, in order and without an error.
pub data AreApplied (crypto : Crypto) : List StructuralRecord → Graph → Graph → Type 0 where
  none_applied : (g : Graph) → AreApplied crypto [] g g
  one_applied :
      (r : StructuralRecord) (rs : List StructuralRecord) (g next after : Graph)
      → apply_record crypto r g ≡ (next, none)
      → AreApplied crypto rs next after
      → AreApplied crypto (r ∷ rs) g after

module _ (crypto : Crypto) where
  one_more :
      (r : StructuralRecord) (rs : List StructuralRecord) (g next after : Graph) (failed : Option _)
      → apply_record crypto r g ≡ (next, failed)
      → failed ≡ none
      → AreApplied crypto rs next after
      → AreApplied crypto (r ∷ rs) g after
  one_more r rs g next after none e fine h = one_applied r rs g next after e h
  one_more r rs g next after (some x) e fine h = absurd (ground (arith, fine))

  apply_records-AreApplied :
      (rs : List StructuralRecord) (g : Graph)
      → (apply_records crypto rs g).1.1 ≡ none
      → AreApplied crypto rs g (apply_records crypto rs g).1.0
  unfolding apply_records
  apply_records-AreApplied [] g fine = none_applied g
  apply_records-AreApplied (r ∷ rs) g fine = elim (Option-cases (apply_record crypto r g).1) [
    | inr (e, bad) ↦ absurd (ground (arith, apply_records_stop crypto r rs g e bad, fine))
    | inl good ↦
        let more = apply_records_more crypto r rs g good in
        let o = apply_record crypto r g in
        rw more
          (one_more r rs g o.0 _ o.1 refl good (apply_records-AreApplied rs o.0 (rw more at fine)))
  ]

module _ (libraries : Libraries) (crypto : Crypto) (database : Database) (batch : ℕ) where
  open database use {World}

  -- Scan after scan, each of at most `batch` records after the watermark, has been read without an error
  -- and applied record by record, up to one that found fewer records than it asked for.
  pub data IsWhole : World → Graph → World → Graph → Type 0 where
    last_scan :
        (world next : World) (g after : Graph) (rs : List StructuralRecord)
        → scan_records libraries database g.ledger_id ((g.last_sequence + 1) % 2 ^ 64) batch world
          ≡ (next, ok rs)
        → (rs ≡ []) ⊎ (length rs < batch)
        → AreApplied crypto rs g after
        → IsWhole world g next after
    full_scan :
        (world next last : World) (g after end : Graph) (rs : List StructuralRecord)
        → scan_records libraries database g.ledger_id ((g.last_sequence + 1) % 2 ^ 64) batch world
          ≡ (next, ok rs)
        → AreApplied crypto rs g after
        → IsWhole next after last end
        → IsWhole world g last end

  abbrev IsScanned : World → Graph → World → Result StoreError (List StructuralRecord) → Type 0
  IsScanned world g next answer =
      scan_records libraries database g.ledger_id ((g.last_sequence + 1) % 2 ^ 64) batch world
      ≡ (next, answer)

  abbrev IsHere : World → Graph → Option (Replayed World) → Type 0
  IsHere world g none = Unit
  IsHere world g (some o) = IsWhole world g o.world o.graph

  batch-IsWhole :
      (rs : List StructuralRecord) (total : ℕ) (world next : World) (g : Graph) (n : ℕ)
      (after : Graph) (failed : Option _) (again : ℕ → Graph → Option (Replayed World))
      (out : Replayed World)
      → IsScanned world g next (ok rs)
      → (failed ≡ none → AreApplied crypto rs g after)
      → ((m : ℕ) (h : Graph) → again m h ≡ some out → IsWhole next h out.world out.graph)
      → after_batch libraries crypto database batch
          (length rs)
          next
          total
          (n, (after, failed))
          again
        ≡ some out
      → out.failure ≡ none
      → IsWhole world g out.world out.graph
  batch-IsWhole rs total world next g n after (some e) again out seen applied rest same fine =
      absurd (ground (arith, same, fine))
  batch-IsWhole rs total world next g n after none again out seen applied rest same fine =
      elim (Bool-cases (ltb (length rs) batch)) [
        | inl short ↦
            let few : length rs < batch = ground (arith, short) in
            let done = rw short at same in
            subst (IsHere world g) done
              (last_scan world next g after rs seen (inr few) (applied refl))
        | inr full ↦
            full_scan world next out.world g after out.graph rs seen (applied refl)
              (rest n after (rw full at same))
      ]

  scan-IsWhole :
      (total : ℕ) (world next : World) (g : Graph)
      (answer : Result StoreError (List StructuralRecord))
      (again : ℕ → Graph → Option (Replayed World)) (out : Replayed World)
      → IsScanned world g next answer
      → ((m : ℕ) (h : Graph) → again m h ≡ some out → IsWhole next h out.world out.graph)
      → after_scan libraries crypto database batch next total g answer again ≡ some out
      → out.failure ≡ none
      → IsWhole world g out.world out.graph
  scan-IsWhole total world next g (err e) again out seen rest same fine =
      absurd (ground (arith, same, fine))
  scan-IsWhole total world next g (ok []) again out seen rest same fine =
      subst (IsHere world g) same (last_scan world next g g [] seen (inl refl) (none_applied g))
  scan-IsWhole total world next g (ok (r ∷ rs)) again out seen rest same fine =
      let o = apply_records crypto (r ∷ rs) g in
      batch-IsWhole (r ∷ rs) total world next g o.0 o.1.0 o.1.1 again out seen
        (apply_records-AreApplied crypto (r ∷ rs) g) rest same fine

  rounds-IsWhole :
      (fuel total : ℕ) (world : World) (g : Graph) (out : Replayed World)
      → replay_rounds libraries crypto database fuel batch total world g ≡ some out
      → out.failure ≡ none
      → IsWhole world g out.world out.graph
  unfolding replay_rounds
  rounds-IsWhole zero total world g out same fine = absurd (ground (arith, same))
  rounds-IsWhole (suc fuel) total world g out same fine =
      let scan =
        scan_records libraries database g.ledger_id ((g.last_sequence + 1) % 2 ^ 64) batch world in
      scan-IsWhole total world scan.0 g scan.1
        (λ n after. replay_rounds libraries crypto database fuel batch (total + n) scan.0 after) out
        refl (λ m h again. rounds-IsWhole fuel (total + m) scan.0 h out again fine) same fine

-- A replay from the store that ends without an error has projected the whole ledger: it has read scan
-- after scan behind the watermark without an error and has applied all records of each, up to a scan
-- that found nothing or fewer records than the batch asked for.
pub replay_from_store-IsWhole :
    (libraries : Libraries) (crypto : Crypto) (database : Database) (fuel batch_size : ℕ)
    (world : database.World) (g : Graph) (out : Replayed database.World)
    → replay_from_store libraries crypto database fuel batch_size world g ≡ some out
    → out.failure ≡ none
    → IsWhole libraries crypto database
        (if batch_size == 0 then 256 else batch_size)
        world
        g
        out.world
        out.graph
unfolding replay_from_store
replay_from_store-IsWhole libraries crypto database fuel batch_size world g out same fine =
    rounds-IsWhole libraries crypto database (batch_of batch_size) fuel 0 world g out same fine
