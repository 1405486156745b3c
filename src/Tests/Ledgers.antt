-- ===== src/Tests/Ledgers.antt =====
-- A ledger of two records, and the theorems of the protocol kernel at it.
use chain_application.Prelude.{
  ◌++◌, ℕ, ◌≤◌, ◌≡◌, ◌≢◌, ◌↔◌, refl, Bytes, List, [], ◌∷◌, true, none, some, ok, arith, length,
  replicate, ascii, contents, bytes_equal, copy,
}
use chain_application.Ledger.Constants.{max_event_body_bytes}
use chain_application.Ledger.Digests.{
  preimage, domain_separated_digest, digest_event_body, digest_record_body,
}
use chain_application.Ledger.Digests.Separation.{IsCollision, equal_digests-IsCollision}
use chain_application.Ledger.Codec.{
  contains, has_exact_keys, expected_set, all_contained, encode_canonical, decode_canonical_map,
  keys,
}
use chain_application.Ledger.Codec.Keys.{IsDistinct, has_exact_keys_iff}
use chain_application.Ledger.Wires.{EventBodyWire}
use chain_application.Ledger.Event.{
  StructuralEvent, new_event, new_event_wire, structural_event, validate_event_body_wire,
  validate_event_structure, validate_event_semantics, new_genesis_event,
  validate_ledger_initialized_payload,
}
use chain_application.Ledger.Event.Structure.{IsEncoded, validate_event_structure_iff}
use chain_application.Ledger.Event.Constructed.{IsConstructed, new_event_iff}
use chain_application.Ledger.Event.Semantics.{IsValidated, IsGenesis, validate_event_semantics_iff}
use chain_application.Ledger.Event.Genesis.{genesis_wire, new_genesis_event_ok}
use chain_application.Ledger.Record.{
  StructuralRecord, new_ledger_record, new_record_body, validate_record_structure, new_record,
  all_printable, validate_signer_key_reference, is_valid_signature_length,
  validate_ledger_record_wire, validate_record_body_wire,
}
use chain_application.Ledger.Record.Structure.{
  IsKeyReference, validate_signer_key_reference_iff, IsValidBody, validate_record_body_wire_iff,
}
use chain_application.Ledger.Record.Integrity.{IsLayered, validate_record_structure_iff}
use chain_application.Ledger.Chain.{
  zero_state, validate_chain_consistency, validate_continuation, apply,
}
use chain_application.Ledger.Chain.Links.{IsAcceptable, next_state, validate_chain_consistency_iff}
use chain_application.Ledger.Chain.Histories.{replayed, IsLinked, AllGood, head_state, replayed_iff}
use chain_application.Ledger.Chain.Replay.{apply_twice}
use chain_application.Tests.Encoding.{
  toy_libraries as toy, toy_documented, write, write_map, read, read_map,
}

-- What a run of the kernel computes with.
unfoldable pub kernel : Unit {0}
unfolding write write_map read read_map bytes_equal copy preimage domain_separated_digest
    digest_event_body digest_record_body contains has_exact_keys expected_set all_contained
    encode_canonical decode_canonical_map validate_event_body_wire validate_event_structure
    validate_event_semantics new_event new_genesis_event validate_ledger_initialized_payload
    all_printable validate_signer_key_reference is_valid_signature_length
    validate_ledger_record_wire validate_record_body_wire validate_record_structure new_record
kernel = tt

abbrev pub id : Bytes
id = replicate 32 7

abbrev pub encoded_event : EventBodyWire → Bytes
encoded_event wire = contents (toy.event_body.marshal wire)

abbrev pub first_event : StructuralEvent
first_event = structural_event toy (encoded_event (genesis_wire id 5)) (genesis_wire id 5)

abbrev pub signature : Bytes
signature = replicate 70 9

abbrev pub key : Bytes
key = ascii "local:p256:v1"

-- The record that the kernel assembles over an event.
abbrev body_of : StructuralEvent → Bytes
body_of event = contents (toy.record_body.marshal (new_record_body event key (some signature)))

abbrev pub encoded_record : StructuralEvent → Bytes
encoded_record event = contents (
    toy.ledger_record.marshal
      (new_ledger_record (body_of event) (digest_record_body toy.sha256 (body_of event))))

abbrev pub record_of : StructuralEvent → StructuralRecord
record_of event = record {
  bytes = encoded_record event;
  record_body_bytes = some (body_of event);
  record_digest = digest_record_body toy.sha256 (body_of event);
  event = event;
  signer_key_reference = key;
  signature_bytes = some signature;
}

first_recorded : new_record toy first_event key (some signature) ≡ ok (record_of first_event)
unfolding kernel
first_recorded = refl

abbrev second_wire : EventBodyWire
second_wire =
    new_event_wire id 2 (some (record_of first_event).record_digest) 6 2 1 (some (1 ∷ 2 ∷ []))

abbrev pub second_event : StructuralEvent
second_event = structural_event toy (encoded_event second_wire) second_wire

first-IsValidated : IsValidated toy first_event
unfolding kernel
first-IsValidated = record { validated = refl; nonempty = omega arith }

second-IsValidated : IsValidated toy second_event
unfolding kernel
second-IsValidated = record { validated = refl; nonempty = omega arith }

abbrev history : List StructuralRecord
history = record_of second_event ∷ record_of first_event ∷ []

history-AllGood : AllGood toy history
unfolding kernel
history-AllGood = (
  record { nonempty = omega arith; validated = second-IsValidated },
  (record { nonempty = omega arith; validated = first-IsValidated }, tt),
)

replayed_iff_example :
    ((replayed toy history ≡ some (head_state history))
      ↔ (IsLinked history × (head_state history ≡ head_state history)))
    × (IsLinked history → (head_state history).last_sequence ≡ 2)
replayed_iff_example =
    replayed_iff toy toy_documented history (head_state history) history-AllGood (omega arith)

validate_chain_consistency_iff_example :
    (((validate_chain_consistency toy
          (next_state (record_of first_event))
          (record_of second_event)).1
        ≡ none)
      ↔ IsAcceptable (next_state (record_of first_event)) (record_of second_event))
    × (IsAcceptable (next_state (record_of first_event)) (record_of second_event)
        → validate_chain_consistency toy
            (next_state (record_of first_event))
            (record_of second_event)
          ≡ (next_state (record_of second_event), none))
validate_chain_consistency_iff_example =
    validate_chain_consistency_iff toy toy_documented (next_state (record_of first_event))
      (record_of second_event) history-AllGood.0 (omega arith)

replay_accepts_first : (apply toy zero_state (record_of first_event)).1 ≡ none
unfolding kernel apply validate_chain_consistency
replay_accepts_first = refl

apply_twice_example :
    ((apply toy (apply toy zero_state (record_of first_event)).0 (record_of second_event)).1 ≢ none)
    × ((apply toy (apply toy zero_state (record_of first_event)).0 (record_of second_event)).0
        ≡ (apply toy zero_state (record_of first_event)).0)
apply_twice_example =
    apply_twice toy toy_documented zero_state (record_of first_event) (record_of second_event)
      history-AllGood.0 replay_accepts_first

validate_record_structure_iff_example :
    (validate_record_structure toy (encoded_record second_event) ≡ ok (record_of second_event))
    ↔ IsLayered toy (encoded_record second_event) (record_of second_event)
validate_record_structure_iff_example =
    validate_record_structure_iff toy (encoded_record second_event) (record_of second_event)

validate_event_structure_iff_example :
    (validate_event_structure toy (encoded_event second_wire) ≡ ok second_event)
    ↔ ((wire : EventBodyWire) × IsEncoded toy (encoded_event second_wire) wire second_event)
validate_event_structure_iff_example =
    validate_event_structure_iff toy (encoded_event second_wire) second_event

validate_event_semantics_iff_example :
    (validate_event_semantics toy first_event ≡ ok tt) ↔ IsGenesis first_event
validate_event_semantics_iff_example =
    validate_event_semantics_iff toy toy_documented first_event first-IsValidated

new_event_iff_example :
    (new_event toy id 2 (some (record_of first_event).record_digest) 6 2 1 (some (1 ∷ 2 ∷ []))
      ≡ ok second_event)
    ↔ IsConstructed toy id 2
        (some (record_of first_event).record_digest)
        6
        2
        1
        (some (1 ∷ 2 ∷ []))
        second_event
new_event_iff_example =
    new_event_iff toy id 2 (some (record_of first_event).record_digest) 6 2 1 (some (1 ∷ 2 ∷ []))
      toy_documented second_event

genesis_fits : length (encoded_event (genesis_wire id 5)) ≤ max_event_body_bytes
unfolding kernel
genesis_fits = omega arith

new_genesis_event_ok_example :
    (event : StructuralEvent) × (new_genesis_event toy id 5 ≡ ok event)
    × (event.ledger_id ≡ id)
    × (event.admitted_at_unix_ms ≡ 5)
    × IsGenesis event
    × (validate_event_semantics toy event ≡ ok tt)
new_genesis_event_ok_example =
    new_genesis_event_ok toy toy_documented id 5 (encoded_event (genesis_wire id 5)) refl refl
      genesis_fits

validate_signer_key_reference_iff_example :
    (validate_signer_key_reference key ≡ ok tt) ↔ IsKeyReference key
validate_signer_key_reference_iff_example = validate_signer_key_reference_iff key

validate_record_body_wire_iff_example :
    (validate_record_body_wire (new_record_body first_event key (some signature)) ≡ ok tt)
    ↔ IsValidBody (new_record_body first_event key (some signature))
validate_record_body_wire_iff_example =
    validate_record_body_wire_iff (new_record_body first_event key (some signature))

abbrev two_entries : List (ℕ × Bytes)
two_entries = (1, []) ∷ (0, 3 ∷ []) ∷ []

two_entries-IsDistinct : IsDistinct (keys two_entries)
unfolding contains
two_entries-IsDistinct = (refl, (refl, tt))

has_exact_keys_iff_example : (has_exact_keys two_entries (0 ∷ 1 ∷ []) ≡ true) ↔ (
    IsDistinct (0 ∷ 1 ∷ []) × ((k : ℕ) → contains k (keys two_entries) ≡ contains k (0 ∷ 1 ∷ [])))
has_exact_keys_iff_example = has_exact_keys_iff two_entries (0 ∷ 1 ∷ []) two_entries-IsDistinct

digests_agree : digest_event_body toy.sha256 (94 ∷ []) ≡ digest_record_body toy.sha256 (1 ∷ [])
unfolding digest_event_body digest_record_body domain_separated_digest preimage
digests_agree = refl

equal_digests-IsCollision_example :
    IsCollision toy.sha256
      (ascii "attribution-chain:event-digest:v1" ++ 0 ∷ 94 ∷ [])
      (ascii "attribution-chain:record-digest:v1" ++ 0 ∷ 1 ∷ [])
equal_digests-IsCollision_example =
    equal_digests-IsCollision toy.sha256 (94 ∷ []) (1 ∷ []) digests_agree

-- A third record that repeats the number of the second is refused and changes nothing.
repeat_refused :
    (validate_chain_consistency toy
      (next_state (record_of second_event))
      (record_of second_event)).1
    ≢ none
unfolding kernel validate_chain_consistency validate_continuation
repeat_refused h = ground arith
