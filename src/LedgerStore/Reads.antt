-- ===== src/LedgerStore/Reads.antt =====
-- What is read from the database is what its bytes say, or nothing.
use chain_application.Prelude.{
  ℕ, suc, ◌≡◌, ◌↔◌, ◌⊎◌, ◌<◌, refl, ap, ◌∙◌, subst, arith, Bytes, List, [], ◌∷◌, Option, none, some,
  Result, ok, err, length, bytes_equal_iff, Result-cases, Option-cases, inl, inr,
}
use chain_application.Ledger.Wires.{Libraries}
use chain_application.Ledger.Record.{StructuralRecord, validate_record_structure}
use chain_application.Ledger.Chain.{ChainState, zero_state, advanced, chain_state_from_record}
use chain_application.LedgerStore.{
  DatabaseError, Rows, Database, head_of, record_of, scanned_row, scan_rows, scanned, head,
  stored_record, scan_records,
}

module _ (libraries : Libraries) where
  -- The bytes are those of a valid record.
  abbrev pub Holds : Bytes → StructuralRecord → Type 0
  Holds bytes r = validate_record_structure libraries bytes ≡ ok r

  -- The answer is a row with these bytes, which hold the record.
  abbrev pub IsRowOf : Result DatabaseError (Option Bytes) → StructuralRecord → Type 0
  IsRowOf answer r = (bytes : Bytes) × (answer ≡ ok (some bytes)) × Holds bytes r

  record_of→row :
      (digest : Bytes) (answer : Result DatabaseError (Option Bytes)) (r : StructuralRecord)
      → record_of libraries digest answer ≡ ok r
      → IsRowOf answer r × (r.record_digest ≡ digest)
  unfolding record_of
  record_of→row digest (err e) r h = absurd (ground arith)
  record_of→row digest (ok none) r h = absurd (ground arith)
  record_of→row digest (ok (some b)) r h =
      elim (Result-cases (validate_record_structure libraries b)) [
        | inr (e, bad) ↦ absurd (ground arith)
        | inl (q, fine) ↦
            let same : q ≡ r = ground arith in
            (
              (b, refl, fine ∙ ap ok same),
              ground (arith, bytes_equal_iff q.record_digest digest, same),
            )
      ]

  row→record_of :
      (digest : Bytes) (answer : Result DatabaseError (Option Bytes)) (r : StructuralRecord)
      → IsRowOf answer r × (r.record_digest ≡ digest)
      → record_of libraries digest answer ≡ ok r
  unfolding record_of
  row→record_of digest answer r ((b, e, fine), same) =
      rw e (ground (arith, bytes_equal_iff r.record_digest digest))

  -- The state of a row of the ledger.
  abbrev pub IsHeadOf :
      Bytes → Result DatabaseError (Option Bytes) → ChainState → StructuralRecord → Type 0
  IsHeadOf ledger_id answer s r =
      IsRowOf answer r
      × (0 < length r.bytes)
      × (r.event.ledger_id ≡ ledger_id)
      × (s ≡ advanced ledger_id r)

  head_of→row :
      (ledger_id : Bytes) (answer : Result DatabaseError (Option Bytes)) (s : ChainState)
      → head_of libraries ledger_id answer ≡ ok s
      → ((answer ≡ ok none) × (s ≡ zero_state))
        ⊎ ((r : StructuralRecord) × IsHeadOf ledger_id answer s r)
  unfolding head_of chain_state_from_record
  head_of→row ledger_id (err e) s h = absurd (ground arith)
  head_of→row ledger_id (ok none) s h = inl (refl, ground arith)
  head_of→row ledger_id (ok (some b)) s h =
      elim (Result-cases (validate_record_structure libraries b)) [
        | inr (e, bad) ↦ absurd (ground arith)
        | inl (r, fine) ↦
            let same : r.event.ledger_id ≡ ledger_id =
              ground (arith, bytes_equal_iff r.event.ledger_id ledger_id) in
            inr (r, ((b, refl, fine), ground arith, same, ground (arith, same)))
      ]

  row→head_of :
      (ledger_id : Bytes) (answer : Result DatabaseError (Option Bytes)) (s : ChainState)
      → ((answer ≡ ok none) × (s ≡ zero_state))
        ⊎ ((r : StructuralRecord) × IsHeadOf ledger_id answer s r)
      → head_of libraries ledger_id answer ≡ ok s
  unfolding head_of chain_state_from_record
  row→head_of ledger_id answer s (inl (e, z)) = rw (e, z) refl
  row→head_of ledger_id answer s (inr (r, ((b, e, fine), some_bytes, same, z))) =
      rw e (ground (arith, bytes_equal_iff r.event.ledger_id ledger_id))

  -- Each row was read, and holds the record at its place.
  pub data AreHeld (ledger_id : Bytes)
      : List (Result DatabaseError Bytes) → List StructuralRecord → Type 0 where
    none_held : AreHeld ledger_id [] []
    one_held :
        (bytes : Bytes) (r : StructuralRecord) (rows : List (Result DatabaseError Bytes))
        (rs : List StructuralRecord)
        → Holds bytes r
        → r.event.ledger_id ≡ ledger_id
        → AreHeld ledger_id rows rs
        → AreHeld ledger_id (ok bytes ∷ rows) (r ∷ rs)

  scan_rows→AreHeld :
      (ledger_id : Bytes) (rows : List (Result DatabaseError Bytes)) (rs : List StructuralRecord)
      → scan_rows libraries ledger_id rows ≡ ok rs
      → AreHeld ledger_id rows rs
  unfolding scan_rows scanned_row
  scan_rows→AreHeld ledger_id [] [] h = none_held
  scan_rows→AreHeld ledger_id [] (r ∷ rs) h = absurd (ground arith)
  scan_rows→AreHeld ledger_id (err e ∷ rows) rs h = absurd (ground arith)
  scan_rows→AreHeld ledger_id (ok b ∷ rows) rs h =
      elim (Result-cases (validate_record_structure libraries b)) [
        | inr (e, bad) ↦ absurd (ground arith)
        | inl (r, fine) ↦ elim (Result-cases (scan_rows libraries ledger_id rows)) [
          | inr (e, bad) ↦ absurd (ground arith)
          | inl (qs, more) ↦
              let all : r ∷ qs ≡ rs = ground arith in
              subst (AreHeld ledger_id (ok b ∷ rows)) all (
                one_held b r rows qs fine
                  (ground (arith, bytes_equal_iff r.event.ledger_id ledger_id))
                  (scan_rows→AreHeld ledger_id rows qs more))
        ]
      ]

  AreHeld→scan_rows :
      (ledger_id : Bytes) (rows : List (Result DatabaseError Bytes)) (rs : List StructuralRecord)
      → AreHeld ledger_id rows rs
      → scan_rows libraries ledger_id rows ≡ ok rs
  unfolding scan_rows scanned_row
  AreHeld→scan_rows ledger_id _ _ none_held = refl
  AreHeld→scan_rows ledger_id _ _ (one_held b r rows rs fine same held) =
      let rest = AreHeld→scan_rows ledger_id rows rs held in
      ground (arith, rest, bytes_equal_iff r.event.ledger_id ledger_id)

  abbrev AreRows : Bytes → Result DatabaseError Rows → List StructuralRecord → Type 0
  AreRows ledger_id answer rs =
      (found : Rows) × (answer ≡ ok found) × (found.ending ≡ none) × AreHeld ledger_id found.rows rs

  scanned→rows :
      (ledger_id : Bytes) (answer : Result DatabaseError Rows) (rs : List StructuralRecord)
      → scanned libraries ledger_id answer ≡ ok rs
      → AreRows ledger_id answer rs
  unfolding scanned
  scanned→rows ledger_id (err e) rs h = absurd (ground arith)
  scanned→rows ledger_id (ok found) rs h = elim (Option-cases found.ending) [
    | inr (e, bad) ↦ elim (Result-cases (scan_rows libraries ledger_id found.rows)) [
      | inl (qs, fine) ↦ absurd (ground arith)
      | inr (x, worse) ↦ absurd (ground arith)
    ]
    | inl done ↦ (found, refl, done, scan_rows→AreHeld ledger_id found.rows rs (ground arith))
  ]

  rows→scanned :
      (ledger_id : Bytes) (answer : Result DatabaseError Rows) (rs : List StructuralRecord)
      → AreRows ledger_id answer rs
      → scanned libraries ledger_id answer ≡ ok rs
  unfolding scanned
  rows→scanned ledger_id answer rs (found, e, done, held) =
      rw e (ground (arith, AreHeld→scan_rows ledger_id found.rows rs held))

  module _ (database : Database) where
    open database use {World, select_head, select_record, select_records_from}

    -- Record returns a record exactly when the database has a row whose bytes are those of that
    -- valid record, and the record has the digest asked for.
    pub stored_record_iff :
        (digest : Bytes) (world : World) (r : StructuralRecord)
        → ((stored_record libraries database digest world).1 ≡ ok r)
          ↔ (IsRowOf (select_record digest world).1 r × (r.record_digest ≡ digest))
    unfolding stored_record
    stored_record_iff digest world r = (
      record_of→row digest (select_record digest world).1 r,
      row→record_of digest (select_record digest world).1 r,
    )

    -- Head returns a state exactly when the database has no row and it is the zero state, or the
    -- database has a row whose bytes, which are not none, are those of a valid record of that
    -- ledger, and it is the state that this record establishes.
    pub head_iff :
        (ledger_id : Bytes) (world : World) (s : ChainState)
        → ((head libraries database ledger_id world).1 ≡ ok s) ↔ (
            (((select_head ledger_id world).1 ≡ ok none) × (s ≡ zero_state))
            ⊎ ((r : StructuralRecord) × IsHeadOf ledger_id (select_head ledger_id world).1 s r))
    unfolding head
    head_iff ledger_id world s = (
      head_of→row ledger_id (select_head ledger_id world).1 s,
      row→head_of ledger_id (select_head ledger_id world).1 s,
    )

    -- A scan with a positive limit returns records exactly when every row was read to the end
    -- without an error, and they are the valid records in the rows, in order, all of that ledger.
    pub scan_records_iff :
        (ledger_id : Bytes) (from limit : ℕ) (world : World) (rs : List StructuralRecord)
        → ((scan_records libraries database ledger_id from (suc limit) world).1 ≡ ok rs) ↔ (
            (found : Rows) × ((select_records_from ledger_id from (suc limit) world).1 ≡ ok found)
            × (found.ending ≡ none)
            × AreHeld ledger_id found.rows rs)
    unfolding scan_records
    scan_records_iff ledger_id from limit world rs = (
      scanned→rows ledger_id (select_records_from ledger_id from (suc limit) world).1 rs,
      rows→scanned ledger_id (select_records_from ledger_id from (suc limit) world).1 rs,
    )
