-- ===== src/Ledger/Record/Construction.antt =====
-- Construction of records: what `new_record` builds holds the event that it was given.
use chain_application.Prelude.{
  ◌≡◌, ◌<◌, sym, ap, ◌∙◌, subst, arith, Bytes, Slice, contents, some, ok, length, ok_injective,
  Option-cases, inl, inr,
}
use chain_application.Ledger.Digests.{digest_record_body}
use chain_application.Ledger.Codec.{encode_canonical}
use chain_application.Ledger.Wires.{RecordBodyWire, LedgerRecordWire, Libraries, IsDocumented}
use chain_application.Ledger.Event.{StructuralEvent, validate_event_structure}
use chain_application.Ledger.Record.{
  StructuralRecord, validate_record_structure, new_record, new_record_body, new_ledger_record,
}
use chain_application.Ledger.Record.Integrity.{validate_record_structure_iff}

module _ (libraries : Libraries) (documented : IsDocumented libraries) (event : StructuralEvent)
    (reference : Bytes) (signature : Slice) (r : StructuralRecord)
    (validated : validate_event_structure libraries event.bytes ≡ ok event) where
  open libraries use {sha256}

  -- Bytes that were written from the event's body are a record of that event.
  written-event :
      (body encoded : Bytes)
      → libraries.record_body.marshal (new_record_body event reference signature) ≡ some body
      → libraries.ledger_record.marshal (new_ledger_record body (digest_record_body sha256 body))
        ≡ some encoded
      → validate_record_structure libraries encoded ≡ ok r
      → (r.event ≡ event) × (0 < length r.bytes)
  written-event body encoded body_written written h =
      let l = (validate_record_structure_iff libraries encoded r).0 h in
      let outer_same : l.outer ≡ new_ledger_record body (digest_record_body sha256 body) =
        documented.ledger_record_reread.reread
          (new_ledger_record body (digest_record_body sha256 body)) l.outer encoded written
          l.outer_canonical.read in
      let body_same : l.body ≡ new_record_body event reference signature =
        documented.record_body_reread.reread (new_record_body event reference signature) l.body body
          body_written
          (subst
            (λ (o : LedgerRecordWire).
              libraries.record_body.unmarshal (contents o.record_body_bytes) ≡ ok l.body)
            outer_same l.body_canonical.read) in
      let event_same : l.event ≡ event =
        ok_injective (validate_event_structure libraries event.bytes) l.event event
          (subst
            (λ (w : RecordBodyWire).
              validate_event_structure libraries (contents w.event_body_bytes) ≡ ok l.event)
            body_same l.event_validated)
          validated in
      (
        ap (λ (q : StructuralRecord). q.event) l.record_eq ∙ event_same,
        subst (λ (q : StructuralRecord). 0 < length q.bytes) (sym l.record_eq)
            (documented.ledger_record_reread.nonempty
              (new_ledger_record body (digest_record_body sha256 body)) encoded written),
      )

  pub new_record-event :
      new_record libraries event reference signature ≡ ok r
      → (r.event ≡ event) × (0 < length r.bytes)
  unfolding new_record encode_canonical
  new_record-event h =
      elim (Option-cases
        (libraries.record_body.marshal (new_record_body event reference signature))) [
          | inl lost ↦ absurd (ground (arith, validated, lost, h))
          | inr (body, body_written) ↦
              elim (Option-cases (
                libraries.ledger_record.marshal
                  (new_ledger_record body (digest_record_body sha256 body)))) [
                    | inl lost ↦ absurd (ground (arith, validated, body_written, lost, h))
                    | inr (encoded, written) ↦
                        written-event body encoded body_written written
                          (ground (arith, validated, body_written, written, h))
                  ]
        ]
