-- ===== src/Ledger/Event/Semantics.antt =====
-- Semantic validation: version 1 gives meaning to the genesis event alone.
use chain_application.Prelude.{
  ◌<◌, ◌≡◌, ◌↔◌, ap, ◌∙◌, Bytes, contents, ok, arith, length, false, [], bytes_equal_refl,
  bytes_equal→eq,
}
use chain_application.Ledger.Constants.{
  max_payload_bytes, event_kind_ledger_initialized, ledger_initialized_payload_cbor,
  ledger_initialized_payload_version_v1,
}
use chain_application.Ledger.Errors.{payload}
use chain_application.Ledger.Codec.{decode_canonical_map}
use chain_application.Ledger.Codec.Canonical.{marshal-IsCanonical, decode_canonical_map_canonical}
use chain_application.Ledger.Wires.{Libraries, IsDocumented}
use chain_application.Ledger.Event.{
  StructuralEvent, validate_event_structure, validate_ledger_initialized_payload,
  validate_event_semantics,
}
use chain_application.Ledger.Event.Structure.{validate_event_structure_iff}

-- The event came out of structural validation, of its own bytes.
pub record IsValidated (libraries : Libraries) (event : StructuralEvent) : Type 0 where
  pub validated : validate_event_structure libraries event.bytes ≡ ok event
  pub nonempty : 0 < length event.bytes

-- What a genesis event is.
pub record IsGenesis (event : StructuralEvent) : Type 0 where
  pub kind_eq : event.kind ≡ event_kind_ledger_initialized
  pub version_eq : event.payload_version ≡ ledger_initialized_payload_version_v1
  pub sequence_eq : event.sequence ≡ 1
  pub no_previous : event.has_previous_record_digest ≡ false
  pub payload_eq : contents event.payload_bytes ≡ ledger_initialized_payload_cbor

module _ (libraries : Libraries) (documented : IsDocumented libraries) where
  -- Every successful validation returns an event that validates to itself again.
  pub validate_event_structure-IsValidated :
      (encoded : Bytes) (event : StructuralEvent)
      → validate_event_structure libraries encoded ≡ ok event
      → IsValidated libraries event
  validate_event_structure-IsValidated encoded event h =
      let (wire, e) = (validate_event_structure_iff libraries encoded event).0 h in
      let same : event.bytes ≡ encoded = ap (λ (v : StructuralEvent). v.bytes) e.event_eq in
      record {
        validated = ap (validate_event_structure libraries) same ∙ h;
        nonempty =
            rw same (documented.event_body_faithful.nonempty wire encoded e.canonical.written);
      }

  genesis_payload_decoded :
      decode_canonical_map libraries.generic libraries.empty_struct ledger_initialized_payload_cbor
        max_payload_bytes [] payload
      ≡ ok tt
  genesis_payload_decoded =
      decode_canonical_map_canonical libraries.generic libraries.empty_struct max_payload_bytes []
        payload ledger_initialized_payload_cbor tt
        (marshal-IsCanonical documented.empty_struct_faithful tt max_payload_bytes tt
          ledger_initialized_payload_cbor documented.empty_struct_written (omega arith))

  pub genesis_payload-ok :
      validate_ledger_initialized_payload libraries ledger_initialized_payload_cbor ≡ ok tt
  unfolding validate_ledger_initialized_payload
  genesis_payload-ok = rw (genesis_payload_decoded, bytes_equal_refl)

  genesis_payload_only :
      (b : Bytes)
      → validate_ledger_initialized_payload libraries b ≡ ok tt
      → b ≡ ledger_initialized_payload_cbor
  unfolding validate_ledger_initialized_payload
  genesis_payload_only b h = bytes_equal→eq b ledger_initialized_payload_cbor (ground arith)

  semantics→IsGenesis :
      (event : StructuralEvent)
      → IsValidated libraries event
      → validate_event_semantics libraries event ≡ ok tt
      → IsGenesis event
  unfolding validate_event_semantics
  semantics→IsGenesis event v h = record {
    kind_eq = ground arith;
    version_eq = ground arith;
    sequence_eq = ground arith;
    no_previous = ground arith;
    payload_eq = genesis_payload_only (contents event.payload_bytes) (ground arith);
  }

  IsGenesis→semantics :
      (event : StructuralEvent)
      → IsValidated libraries event
      → IsGenesis event
      → validate_event_semantics libraries event ≡ ok tt
  unfolding validate_event_semantics
  IsGenesis→semantics event v g =
      ground
        (arith, genesis_payload-ok, ap (validate_ledger_initialized_payload libraries) g.payload_eq)

  -- A validated event has a meaning in version 1 exactly when it is a genesis event.
  pub validate_event_semantics_iff :
      (event : StructuralEvent)
      → IsValidated libraries event
      → (validate_event_semantics libraries event ≡ ok tt) ↔ IsGenesis event
  validate_event_semantics_iff event v = (semantics→IsGenesis event v, IsGenesis→semantics event v)
