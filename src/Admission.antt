-- ===== src/Admission.antt =====
-- internal/admission/service.go: records are built on the head of their ledger, signed and stored, and
-- built again where another writer was first.
pub mod Started
pub mod Stored
pub mod Payloads
pub mod Continued
use chain_application.Prelude.{
  ℕ, zero, suc, ◌+◌, ◌%◌, Bytes, Slice, Bool, not, Option, none, some, Result, ok, err, map_err,
  ◌==◌, length, contents, if◌then◌else◌, ◌>>=◌,
}
use chain_application.Ledger.Constants.{
  uint64_mod, event_kind_endorsement_accepted, event_kind_endorsement_revoked,
}
use chain_application.Ledger.Errors.{Failure, Checked}
use chain_application.Ledger.Wires.{Libraries}
use chain_application.Ledger.Event.{StructuralEvent, new_event, new_genesis_event}
use chain_application.Ledger.Record.{StructuralRecord, new_record}
use chain_application.Ledger.Chain.{ChainState}
use chain_application.Endorsement.Wires.{PayloadError, Crypto, payload_version_v1}
use chain_application.Endorsement.Payloads.{
  EndorsementAcceptedPayload, EndorsementRevokedPayload, verify_accepted_payload,
  verify_revoked_payload, encode_accepted_payload, encode_revoked_payload,
}
use chain_application.LedgerStore.{
  StoreError, chain_head_moved, duplicate_record, Database, head, append, stored_record,
}

pub data AdmissionError : Type 0 where
  ledger_already_initialized uninitialized empty_payload sign_failed cancelled : AdmissionError
  retries_exceeded nil_payload : AdmissionError
  store_failed : StoreError → AdmissionError
  event_failed record_failed : Failure → AdmissionError
  payload_failed : PayloadError → AdmissionError

-- The database, the signer, the clock, in milliseconds, and the context of the request.
pub record Environment : Type 1 where
  pub database : Database
  pub sign : Bytes → database.World → database.World × Option Slice
  pub key_reference : Bytes
  pub now : database.World → ℕ
  pub is_done : database.World → Bool

pub record AdmitRequest : Type 0 where
  pub ledger_id : Bytes
  pub event_kind : ℕ
  pub payload_version : ℕ
  pub payload_bytes : Slice

module _ (libraries : Libraries) (environment : Environment) where
  open environment use {database, sign, key_reference, now, is_done}
  open database use {World}

  abbrev pub Admitted : Type 0
  Admitted = World × Result AdmissionError StructuralRecord

  -- The event is signed and wrapped in a record.
  abbrev pub assembled : StructuralEvent → World × Option Slice → Admitted
  assembled event (world, none) = (world, err sign_failed)
  assembled event (world, some signature) =
      (world, map_err record_failed (new_record libraries event key_reference signature))

  unfoldable pub sign_event : Checked StructuralEvent → World → Admitted
  sign_event (err e) world = (world, err (event_failed e))
  sign_event (ok event) world = assembled event (sign event.digest world)

  -- What becomes of a record that `InitLedger` has appended.
  abbrev initialized : StructuralRecord → World × Result StoreError (Unit {0}) → Admitted
  initialized r (world, ok u) = (world, ok r)
  initialized r (world, err chain_head_moved) = (world, err ledger_already_initialized)
  initialized r (world, err duplicate_record) = (world, err ledger_already_initialized)
  initialized r (world, err e) = (world, err (store_failed e))

  abbrev store_genesis : Admitted → Admitted
  store_genesis (world, err e) = (world, err e)
  store_genesis (world, ok r) = initialized r (append libraries database r world)

  abbrev on_head : Bytes → World × Result StoreError ChainState → Admitted
  on_head ledger_id (world, err e) = (world, err (store_failed e))
  on_head ledger_id (world, ok state) =
      if state.initialized
      then (world, err ledger_already_initialized)
      else store_genesis (sign_event (new_genesis_event libraries ledger_id (now world)) world)

  unfoldable pub init_ledger : Bytes → World → Admitted
  init_ledger ledger_id world = on_head ledger_id (head libraries database ledger_id world)

  -- The record that is stored already, or the one that was built.
  abbrev existing : StructuralRecord → World × Result StoreError StructuralRecord → Admitted
  existing r (world, ok found) = (world, ok found)
  existing r (world, err e) = (world, ok r)

  -- What becomes of a record that `Admit` has appended; `again` is the next attempt.
  abbrev pub settled :
      StructuralRecord → (World → Admitted) → World × Result StoreError (Unit {0}) → Admitted
  settled r again (world, ok u) = (world, ok r)
  settled r again (world, err duplicate_record) =
      existing r (stored_record libraries database r.record_digest world)
  settled r again (world, err chain_head_moved) =
      if is_done world then (world, err cancelled) else again world
  settled r again (world, err e) = (world, err (store_failed e))

  abbrev pub store_record : (World → Admitted) → Admitted → Admitted
  store_record again (world, err e) = (world, err e)
  store_record again (world, ok r) = settled r again (append libraries database r world)

  -- The event after the head.
  unfoldable pub next_event : AdmitRequest → ChainState → ℕ → Checked StructuralEvent
  next_event request state at =
      new_event libraries request.ledger_id ((state.last_sequence + 1) % uint64_mod)
        (some state.last_record_digest) at request.event_kind request.payload_version
        request.payload_bytes

  abbrev pub on_admit_head :
      AdmitRequest → (World → Admitted) → World × Result StoreError ChainState → Admitted
  on_admit_head request again (world, err e) = (world, err (store_failed e))
  on_admit_head request again (world, ok state) =
      if state.initialized
      then store_record again (sign_event (next_event request state (now world)) world)
      else (world, err uninitialized)

  -- The loop, for the attempts that are left.
  unfoldable pub attempts : ℕ → AdmitRequest → World → Admitted
  attempts zero request world = (world, err retries_exceeded)
  attempts (suc left) request world =
      on_admit_head request (attempts left request)
        (head libraries database request.ledger_id world)

  unfoldable pub admit : ℕ → AdmitRequest → World → Admitted
  admit max_retries request world =
      if length (contents request.payload_bytes) == 0
      then (world, err empty_payload)
      else attempts (max_retries + 1) request world

  -- A payload that passed its verification is admitted in its encoded form.
  abbrev pub admit_encoded : ℕ → Bytes → ℕ → Result PayloadError Bytes → World → Admitted
  admit_encoded max_retries ledger_id kind (err e) world = (world, err (payload_failed e))
  admit_encoded max_retries ledger_id kind (ok encoded) world =
      admit max_retries
        (record {
          ledger_id = ledger_id;
          event_kind = kind;
          payload_version = payload_version_v1;
          payload_bytes = some encoded;
        })
        world

  module _ (crypto : Crypto) where
    open crypto use {PublicKey}

    unfoldable pub admit_endorsement :
        ℕ → Bytes → Option (EndorsementAcceptedPayload PublicKey) → World → Admitted
    admit_endorsement max_retries ledger_id none world = (world, err nil_payload)
    admit_endorsement max_retries ledger_id (some p) world =
        admit_encoded max_retries ledger_id event_kind_endorsement_accepted
          (verify_accepted_payload crypto p >>= λ u. encode_accepted_payload crypto p) world

    unfoldable pub admit_revocation :
        ℕ → Bytes → Option (EndorsementRevokedPayload PublicKey) → World → Admitted
    admit_revocation max_retries ledger_id none world = (world, err nil_payload)
    admit_revocation max_retries ledger_id (some r) world =
        admit_encoded max_retries ledger_id event_kind_endorsement_revoked
          (verify_revoked_payload crypto r >>= λ u. encode_revoked_payload crypto r) world
