-- ===== src/Ledger/Record/Integrity.antt =====
-- The integrity of validated records: which bytes are accepted, and what the digests bind.
use chain_application.Prelude.{
  ◌≡◌, ◌↔◌, ap, sym, Bytes, contents, ok, arith, bytes_equal_refl, bytes_equal→eq, bytes_equal_iff,
  Result-cases, inl, inr,
}
use chain_application.Ledger.Constants.{max_record_body_bytes, max_ledger_record_bytes}
use chain_application.Ledger.Errors.{Checked, record_body, ledger_record}
use chain_application.Ledger.Digests.{digest_record_body}
use chain_application.Ledger.Codec.{decode_canonical_map}
use chain_application.Ledger.Codec.Canonical.{
  IsCanonical, decode_canonical_map-IsCanonical, decode_canonical_map_canonical,
}
use chain_application.Ledger.Wires.{
  RecordBodyWire, LedgerRecordWire, Libraries, record_body_keys, ledger_record_keys,
}
use chain_application.Ledger.Event.{StructuralEvent, validate_event_structure}
use chain_application.Ledger.Record.{StructuralRecord, structural_record, validate_record_structure}
use chain_application.Ledger.Record.Structure.{
  IsValidOuter, IsValidBody, validate_ledger_record_wire_iff, validate_record_body_wire_iff,
}

-- A record's three layers: the outer struct, the body that it holds, and the event in the body,
-- each canonical and in bounds, with both digests those of the bytes that they stand for.
pub record IsLayered (libraries : Libraries) (encoded : Bytes) (record' : StructuralRecord)
    : Type 0 where
  pub outer : LedgerRecordWire
  pub outer_canonical :
      IsCanonical libraries.generic libraries.ledger_record max_ledger_record_bytes
        ledger_record_keys encoded outer
  pub outer_valid : IsValidOuter outer
  pub body : RecordBodyWire
  pub body_canonical :
      IsCanonical libraries.generic libraries.record_body max_record_body_bytes record_body_keys
        (contents outer.record_body_bytes)
        body
  pub body_valid : IsValidBody body
  pub event : StructuralEvent
  pub event_validated :
      validate_event_structure libraries (contents body.event_body_bytes) ≡ ok event
  pub record_digest_eq :
      digest_record_body libraries.sha256 (contents outer.record_body_bytes)
      ≡ contents outer.record_digest
  pub event_digest_eq : event.digest ≡ contents body.event_digest
  pub record_eq :
      record' ≡ structural_record encoded outer body (contents outer.record_digest) event

module _ (libraries : Libraries) (encoded : Bytes) where
  abbrev decoded_outer : Checked LedgerRecordWire
  decoded_outer =
      decode_canonical_map libraries.generic libraries.ledger_record encoded max_ledger_record_bytes
        ledger_record_keys ledger_record

  abbrev decoded_body : LedgerRecordWire → Checked RecordBodyWire
  decoded_body outer =
      decode_canonical_map libraries.generic libraries.record_body
        (contents outer.record_body_bytes) max_record_body_bytes record_body_keys record_body

  decoded_outer-IsCanonical :
      (outer : LedgerRecordWire)
      → decoded_outer ≡ ok outer
      → IsCanonical libraries.generic libraries.ledger_record max_ledger_record_bytes
          ledger_record_keys encoded outer
  decoded_outer-IsCanonical =
      decode_canonical_map-IsCanonical libraries.generic libraries.ledger_record
        max_ledger_record_bytes ledger_record_keys ledger_record encoded

  decoded_body-IsCanonical :
      (outer : LedgerRecordWire) (body : RecordBodyWire)
      → decoded_body outer ≡ ok body
      → IsCanonical libraries.generic libraries.record_body max_record_body_bytes record_body_keys
          (contents outer.record_body_bytes)
          body
  decoded_body-IsCanonical outer =
      decode_canonical_map-IsCanonical libraries.generic libraries.record_body max_record_body_bytes
        record_body_keys record_body (contents outer.record_body_bytes)

  layers_of_decoded :
      (record' : StructuralRecord) (outer : LedgerRecordWire) (body : RecordBodyWire)
      (event : StructuralEvent)
      → decoded_outer ≡ ok outer
      → decoded_body outer ≡ ok body
      → validate_event_structure libraries (contents body.event_body_bytes) ≡ ok event
      → validate_record_structure libraries encoded ≡ ok record'
      → IsLayered libraries encoded record'
  unfolding validate_record_structure
  layers_of_decoded record' outer body event p q r h =
      let digest = digest_record_body libraries.sha256 (contents outer.record_body_bytes) in
      let same : digest ≡ contents outer.record_digest =
        bytes_equal→eq digest (contents outer.record_digest) (ground arith) in
      record {
        outer = outer;
        outer_canonical = decoded_outer-IsCanonical outer p;
        outer_valid = (validate_ledger_record_wire_iff outer).0 (ground arith);
        body = body;
        body_canonical = decoded_body-IsCanonical outer body q;
        body_valid = (validate_record_body_wire_iff body).0 (ground arith);
        event = event;
        event_validated = r;
        record_digest_eq = same;
        event_digest_eq = bytes_equal→eq event.digest (contents body.event_digest) (ground arith);
        record_eq = ground (arith, same);
      }

  validated→IsLayered :
      (record' : StructuralRecord)
      → validate_record_structure libraries encoded ≡ ok record'
      → IsLayered libraries encoded record'
  unfolding validate_record_structure
  validated→IsLayered record' h = elim (Result-cases decoded_outer) [
    | inr (e, p) ↦ absurd (ground arith)
    | inl (outer, p) ↦ elim (Result-cases (decoded_body outer)) [
      | inr (e, q) ↦ absurd (ground arith)
      | inl (body, q) ↦
          elim (Result-cases
            (validate_event_structure libraries (contents body.event_body_bytes))) [
              | inr (e, r) ↦ absurd (ground arith)
              | inl (event, r) ↦ layers_of_decoded record' outer body event p q r h
            ]
    ]
  ]

  IsLayered→validated :
      (record' : StructuralRecord)
      → IsLayered libraries encoded record'
      → validate_record_structure libraries encoded ≡ ok record'
  unfolding validate_record_structure
  IsLayered→validated record' l =
      rw
        (
          decode_canonical_map_canonical libraries.generic libraries.ledger_record
              max_ledger_record_bytes ledger_record_keys ledger_record encoded l.outer
              l.outer_canonical,
          (validate_ledger_record_wire_iff l.outer).1 l.outer_valid,
          decode_canonical_map_canonical libraries.generic libraries.record_body
              max_record_body_bytes record_body_keys record_body
              (contents l.outer.record_body_bytes) l.body l.body_canonical,
          (validate_record_body_wire_iff l.body).1 l.body_valid,
          l.outer_valid.version,
          l.body_valid.version,
          l.record_digest_eq,
          bytes_equal_refl (contents l.outer.record_digest),
          l.event_validated,
          (bytes_equal_iff l.event.digest (contents l.body.event_digest)).1 l.event_digest_eq,
        )
        (ap ok (sym l.record_eq))

  -- Validation of a record's bytes returns a record exactly when the outer struct, the body in it
  -- and the event in that are canonical and in bounds, both digests are those of the bytes that
  -- they stand for, and the record holds what they say.
  pub validate_record_structure_iff :
      (record' : StructuralRecord)
      → (validate_record_structure libraries encoded ≡ ok record')
        ↔ IsLayered libraries encoded record'
  validate_record_structure_iff record' = (validated→IsLayered record', IsLayered→validated record')
