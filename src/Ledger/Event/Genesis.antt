-- ===== src/Ledger/Event/Genesis.antt =====
-- The genesis event that the kernel builds.
use chain_application.Prelude.{
  ℕ, ◌≤◌, ◌≡◌, refl, Bytes, some, none, ok, arith, length, replicate, copy_full,
}
use chain_application.Ledger.Constants.{
  max_event_body_bytes, ledger_id_bytes, event_kind_ledger_initialized,
  ledger_initialized_payload_cbor, ledger_initialized_payload_version_v1,
}
use chain_application.Ledger.Wires.{Libraries, IsDocumented, EventBodyWire}
use chain_application.Ledger.Event.{
  StructuralEvent, new_event_wire, structural_event, validate_event_structure, new_genesis_event,
  validate_event_semantics,
}
use chain_application.Ledger.Event.Structure.{
  IsValidWire, validate_event_structure_iff, validate_event_body_wire_of_IsValidWire,
}
use chain_application.Ledger.Event.Construction.{new_event-eq, event_written-IsCanonical}
use chain_application.Ledger.Event.Semantics.{
  IsGenesis, validate_event_structure-IsValidated, genesis_payload-ok, validate_event_semantics_iff,
}

abbrev pub genesis_wire : Bytes → ℕ → EventBodyWire
genesis_wire id at =
    new_event_wire id 1 none at event_kind_ledger_initialized ledger_initialized_payload_version_v1
      (some ledger_initialized_payload_cbor)

module _ (libraries : Libraries) (documented : IsDocumented libraries) (id : Bytes) (at : ℕ)
    (b : Bytes) (id_length : length id ≡ ledger_id_bytes)
    (written : libraries.event_body.marshal (genesis_wire id at) ≡ some b)
    (fits : length b ≤ max_event_body_bytes) where
  abbrev genesis : StructuralEvent
  genesis = structural_event libraries b (genesis_wire id at)

  genesis_wire-IsValidWire : IsValidWire (genesis_wire id at)
  genesis_wire-IsValidWire = ground arith

  genesis_validated : validate_event_structure libraries b ≡ ok genesis
  genesis_validated = (validate_event_structure_iff libraries b genesis).1 (
    genesis_wire id at,
    record {
      canonical =
          event_written-IsCanonical libraries documented (genesis_wire id at) b written fits;
      valid = genesis_wire-IsValidWire;
      event_eq = refl;
    },
  )

  genesis_built : new_genesis_event libraries id at ≡ ok genesis
  unfolding new_genesis_event
  genesis_built =
      rw
        (
          genesis_payload-ok libraries documented,
          new_event-eq libraries documented id 1 none at 1 1 (some ledger_initialized_payload_cbor)
              b written,
        )
        (ground (
          arith,
          validate_event_body_wire_of_IsValidWire (genesis_wire id at) genesis_wire-IsValidWire,
        ))

  genesis-IsGenesis : IsGenesis genesis
  genesis-IsGenesis = record {
    kind_eq = refl;
    version_eq = refl;
    sequence_eq = refl;
    no_previous = refl;
    payload_eq = refl;
  }

  -- For a ledger id of 32 bytes whose genesis body the library writes within the limit,
  -- construction returns an event with that id and time, which passes semantic validation.
  pub new_genesis_event_ok :
      (event : StructuralEvent) × (new_genesis_event libraries id at ≡ ok event)
      × (event.ledger_id ≡ id)
      × (event.admitted_at_unix_ms ≡ at)
      × IsGenesis event
      × (validate_event_semantics libraries event ≡ ok tt)
  new_genesis_event_ok = (
    genesis,
    genesis_built,
    copy_full (replicate ledger_id_bytes 0) id id_length,
    refl,
    genesis-IsGenesis,
    (validate_event_semantics_iff libraries documented genesis
          (validate_event_structure-IsValidated libraries documented b genesis genesis_validated)).1
        genesis-IsGenesis,
  )
