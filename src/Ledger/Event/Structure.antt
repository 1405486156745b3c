-- ===== src/Ledger/Event/Structure.antt =====
-- What structural validation of an event body accepts.
use chain_application.Prelude.{
  ◌≤◌, ◌<◌, ◌≡◌, ◌↔◌, refl, ap, sym, Bytes, Slice, contents, none, some, true, ok, arith, length,
  replicate, copy, copy_full, Result-cases, inl, inr,
}
use chain_application.Ledger.Constants.{
  protocol_version_v1, ledger_id_bytes, digest_bytes, max_payload_bytes, max_event_body_bytes,
}
use chain_application.Ledger.Errors.{Checked, event_body}
use chain_application.Ledger.Codec.{decode_canonical_map}
use chain_application.Ledger.Codec.Canonical.{
  IsCanonical, decode_canonical_map-IsCanonical, decode_canonical_map_canonical,
}
use chain_application.Ledger.Wires.{EventBodyWire, Libraries, event_body_keys}
use chain_application.Ledger.Event.{
  StructuralEvent, has_digest_length, copied, validate_event_body_wire, structural_event,
  validate_event_structure,
}

-- The protocol's bounds on the fields of an event body.
pub record IsValidWire (wire : EventBodyWire) : Type 0 where
  pub version : wire.protocol_version ≡ protocol_version_v1
  pub ledger_id_length : length (contents wire.ledger_id) ≡ ledger_id_bytes
  pub sequence_pos : 0 < wire.sequence
  pub previous_length : has_digest_length wire.previous_record_digest ≡ true
  pub kind_pos : 0 < wire.event_kind
  pub payload_version_pos : 0 < wire.payload_version
  pub payload_pos : 0 < length (contents wire.payload_bytes)
  pub payload_fits : length (contents wire.payload_bytes) ≤ max_payload_bytes

pub validate_event_body_wire-IsValidWire :
    (wire : EventBodyWire) → validate_event_body_wire wire ≡ ok tt → IsValidWire wire
unfolding validate_event_body_wire
validate_event_body_wire-IsValidWire wire h = ground arith

pub validate_event_body_wire_of_IsValidWire :
    (wire : EventBodyWire) → IsValidWire wire → validate_event_body_wire wire ≡ ok tt
unfolding validate_event_body_wire
validate_event_body_wire_of_IsValidWire wire v = ground arith

-- The bytes are the one encoding of a body within bounds, and the event has its fields.
pub record IsEncoded (libraries : Libraries) (encoded : Bytes) (wire : EventBodyWire)
    (event : StructuralEvent) : Type 0 where
  pub canonical :
      IsCanonical libraries.generic libraries.event_body max_event_body_bytes event_body_keys
        encoded wire
  pub valid : IsValidWire wire
  pub event_eq : event ≡ structural_event libraries encoded wire

module _ (libraries : Libraries) (encoded : Bytes) where
  abbrev decoded_wire : Checked EventBodyWire
  decoded_wire =
      decode_canonical_map libraries.generic libraries.event_body encoded max_event_body_bytes
        event_body_keys event_body

  decoded_wire_iff :
      (wire : EventBodyWire)
      → (decoded_wire ≡ ok wire)
        ↔ IsCanonical libraries.generic libraries.event_body max_event_body_bytes event_body_keys
            encoded wire
  decoded_wire_iff wire = (
    decode_canonical_map-IsCanonical libraries.generic libraries.event_body max_event_body_bytes
        event_body_keys event_body encoded wire,
    decode_canonical_map_canonical libraries.generic libraries.event_body max_event_body_bytes
        event_body_keys event_body encoded wire,
  )

  validated→IsEncoded :
      (event : StructuralEvent)
      → validate_event_structure libraries encoded ≡ ok event
      → (wire : EventBodyWire) × IsEncoded libraries encoded wire event
  unfolding validate_event_structure
  validated→IsEncoded event h = elim (Result-cases decoded_wire) [
    | inr (e, failed) ↦ absurd (ground arith)
    | inl (wire, read) ↦ (
      wire,
      record {
        canonical = (decoded_wire_iff wire).0 read;
        valid = validate_event_body_wire-IsValidWire wire (ground arith);
        event_eq = ground arith;
      },
    )
  ]

  -- Validation of an event body returns an event exactly when the bytes are the canonical encoding
  -- of a body within the protocol's bounds, and that event has the body's fields.
  pub validate_event_structure_iff :
      (event : StructuralEvent)
      → (validate_event_structure libraries encoded ≡ ok event)
        ↔ ((wire : EventBodyWire) × IsEncoded libraries encoded wire event)
  unfolding validate_event_structure
  validate_event_structure_iff event = (
    validated→IsEncoded event,
    λ e.
        rw
          (
            (decoded_wire_iff e.0).1 e.1.canonical,
            validate_event_body_wire_of_IsValidWire e.0 e.1.valid,
          )
          (ap ok (sym e.1.event_eq)),
  )

-- What every validated event satisfies.
pub record IsValidEvent (event : StructuralEvent) : Type 0 where
  pub ledger_id_length : length event.ledger_id ≡ ledger_id_bytes
  pub previous_length : length event.previous_record_digest ≡ digest_bytes
  pub sequence_pos : 0 < event.sequence
  pub kind_pos : 0 < event.kind
  pub payload_version_pos : 0 < event.payload_version
  pub payload_pos : 0 < length (contents event.payload_bytes)
  pub payload_fits : length (contents event.payload_bytes) ≤ max_payload_bytes
  pub bytes_fit : length event.bytes ≤ max_event_body_bytes

pub length-copied : (s : Slice) → has_digest_length s ≡ true → length (copied s) ≡ digest_bytes
length-copied none h = refl
length-copied (some b) h =
    let e : length b ≡ digest_bytes = ground arith in
    rw (copy_full (replicate digest_bytes 0) b e) e

module _ (libraries : Libraries) (encoded : Bytes) (wire : EventBodyWire) where
  pub copied_ledger_id :
      IsValidWire wire
      → copy (replicate ledger_id_bytes 0) (contents wire.ledger_id) ≡ contents wire.ledger_id
  copied_ledger_id v = copy_full _ _ v.ledger_id_length

  pub IsEncoded-IsValidEvent :
      (event : StructuralEvent) → IsEncoded libraries encoded wire event → IsValidEvent event
  IsEncoded-IsValidEvent event e = rw (e.event_eq) (record {
    ledger_id_length = rw (copied_ledger_id e.valid) e.valid.ledger_id_length;
    previous_length = length-copied wire.previous_record_digest e.valid.previous_length;
    sequence_pos = e.valid.sequence_pos;
    kind_pos = e.valid.kind_pos;
    payload_version_pos = e.valid.payload_version_pos;
    payload_pos = e.valid.payload_pos;
    payload_fits = e.valid.payload_fits;
    bytes_fit = e.canonical.fits;
  })
