-- ===== src/Tests/Admissions.antt =====
-- An endorsement and a revocation admitted to the ledger, and the theorems of admission at them.
use chain_application.Prelude.{
  none, arith, subst, ok_injective, ◌≤◌, ℕ, ◌≡◌, refl, Bytes, [], ◌∷◌, false, some, ok,
}
use chain_application.Ledger.Event.{new_event_wire, structural_event}
use chain_application.Ledger.Record.{StructuralRecord}
use chain_application.Ledger.Chain.{ChainState, advanced, chain_state_from_record}
use chain_application.Ledger.Wires.{EventBodyWire}
use chain_application.LedgerStore.{Database, head, head_of, append, appended}
use chain_application.Endorsement.Payloads.{encode_accepted_payload, encode_revoked_payload}
use chain_application.Endorsement.Verification.{IsSigned}
use chain_application.Endorsement.Revocations.{IsRevocationSigned}
use chain_application.Admission.{
  init_ledger, Environment, sign_event, next_event, attempts, admit, admit_endorsement,
  admit_revocation,
}
use chain_application.Admission.Continued.{IsContinued, admit-IsContinued}
use chain_application.Ledger.Constants.{max_uint64}
use chain_application.Admission.Stored.{IsAdmitted}
use chain_application.Admission.Payloads.{
  request_of, admit_endorsement-IsSigned, admit_revocation-IsRevocationSigned,
}
use chain_application.Tests.Encoding.{toy_libraries as toy, toy_documented}
use chain_application.Tests.Signing.{toy_crypto}
use chain_application.Tests.Ledgers.{
  first_event, kernel, id, key, signature, encoded_event, record_of,
}
use chain_application.Tests.Projections.{
  code, endorsement, withdrawal, accepted_bytes, revoked_bytes,
}
use chain_application.Tests.Stores.{full_database, second}

-- The database takes the row, and the signer always signs alike.
abbrev open_database : Database
open_database = record full_database { insert_record = λ row world. (world, ok 1) }

abbrev pub toy_environment : Environment
toy_environment = record {
  database = open_database;
  sign = λ digest world. (world, some (some signature));
  key_reference = key;
  now = λ world. 7;
  is_done = λ world. false;
}

-- The record after the second, of this kind and with this payload.
abbrev third_wire : ℕ → Bytes → EventBodyWire
third_wire kind payload = new_event_wire id 3 (some second.record_digest) 7 kind 1 (some payload)

abbrev pub third : ℕ → Bytes → StructuralRecord
third kind payload =
    record_of
      (structural_event toy (encoded_event (third_wire kind payload)) (third_wire kind payload))

endorsement_admitted :
    (admit_endorsement toy toy_environment toy_crypto 3 id (some endorsement) tt).1
    ≡ ok (third 2 accepted_bytes)
unfolding kernel code head head_of append appended chain_state_from_record sign_event next_event
    attempts admit admit_endorsement
endorsement_admitted = refl

admit_endorsement-IsSigned_example :
    IsSigned toy_crypto endorsement
    × ((b : Bytes) × (encode_accepted_payload toy_crypto endorsement ≡ ok b)
        × IsAdmitted toy toy_environment (request_of id 2 b) (third 2 accepted_bytes))
admit_endorsement-IsSigned_example =
    admit_endorsement-IsSigned toy toy_environment toy_crypto 3 id endorsement tt
      (third 2 accepted_bytes) endorsement_admitted

withdrawal_admitted :
    (admit_revocation toy toy_environment toy_crypto 3 id (some withdrawal) tt).1
    ≡ ok (third 3 revoked_bytes)
unfolding kernel code head head_of append appended chain_state_from_record sign_event next_event
    attempts admit admit_revocation
withdrawal_admitted = refl

admit_revocation-IsRevocationSigned_example :
    IsRevocationSigned toy_crypto withdrawal
    × ((b : Bytes) × (encode_revoked_payload toy_crypto withdrawal ≡ ok b)
        × IsAdmitted toy toy_environment (request_of id 3 b) (third 3 revoked_bytes))
admit_revocation-IsRevocationSigned_example =
    admit_revocation-IsRevocationSigned toy toy_environment toy_crypto 3 id withdrawal tt
      (third 3 revoked_bytes) withdrawal_admitted

small_admitted :
    (admit toy toy_environment 3 (request_of id 2 (1 ∷ [])) tt).1 ≡ ok (third 2 (1 ∷ []))
unfolding kernel head head_of append appended chain_state_from_record sign_event next_event attempts
    admit
small_admitted = refl

heads_are_small :
    (at : Unit {0}) (state : ChainState)
    → (head toy open_database id at).1 ≡ ok state
    → state.last_sequence ≤ max_uint64
unfolding kernel head head_of chain_state_from_record
heads_are_small tt state h =
    subst (λ (s : ChainState). s.last_sequence ≤ max_uint64)
      (ok_injective (head toy open_database id tt).1 (advanced id second) state refl h)
      (omega arith)

admit-IsContinued_example :
    (a : IsAdmitted toy toy_environment (request_of id 2 (1 ∷ [])) (third 2 (1 ∷ []))) × IsContinued
      toy toy_documented toy_environment a.state a.built
admit-IsContinued_example =
    admit-IsContinued toy toy_documented toy_environment 3 (request_of id 2 (1 ∷ [])) tt
      (third 2 (1 ∷ [])) refl (λ e. ground (arith, e)) heads_are_small small_admitted

-- A database without records, and a clock at the time of the first record.
abbrev new_environment : Environment
new_environment = record {
  database = record open_database { select_head = λ ledger_id world. (world, ok none) };
  sign = λ digest world. (world, some (some signature));
  key_reference = key;
  now = λ world. 5;
  is_done = λ world. false;
}

ledger_initialized : (init_ledger toy new_environment id tt).1 ≡ ok (record_of first_event)
unfolding kernel head head_of append appended sign_event init_ledger
ledger_initialized = refl
