-- ===== src/Ledger/Wires.antt =====
-- The wire structs of event.go and record.go, their key sets, and the libraries below them.
use chain_application.Prelude.{ℕ, Bytes, Slice, List, [], ◌∷◌, length, some, ◌≡◌, refl}
use chain_application.Ledger.Constants.{digest_bytes, ledger_initialized_payload_cbor}
use chain_application.Ledger.Codec.{Codec, GenericMap, contains}
use chain_application.Ledger.Codec.Keys.{IsDistinct}
use chain_application.Ledger.Codec.Canonical.{IsFaithful, IsReread}

pub record EventBodyWire : Type 0 where
  pub protocol_version : ℕ
  pub ledger_id : Slice
  pub sequence : ℕ
  pub previous_record_digest : Slice
  pub admitted_at_unix_ms : ℕ
  pub event_kind : ℕ
  pub payload_version : ℕ
  pub payload_bytes : Slice

pub record RecordBodyWire : Type 0 where
  pub record_version : ℕ
  pub event_body_bytes : Slice
  pub event_digest_algorithm : Bytes
  pub event_digest : Slice
  pub signer_key_reference : Bytes
  pub signature_algorithm : Bytes
  pub signature_encoding : Bytes
  pub signature_bytes : Slice

pub record LedgerRecordWire : Type 0 where
  pub record_version : ℕ
  pub record_body_bytes : Slice
  pub record_digest_algorithm : Bytes
  pub record_digest : Slice

abbrev pub event_body_keys : List ℕ
event_body_keys = 0 ∷ 1 ∷ 2 ∷ 3 ∷ 4 ∷ 5 ∷ 6 ∷ 7 ∷ []

abbrev pub record_body_keys : List ℕ
record_body_keys = 0 ∷ 1 ∷ 2 ∷ 3 ∷ 4 ∷ 5 ∷ 6 ∷ 7 ∷ []

abbrev pub ledger_record_keys : List ℕ
ledger_record_keys = 0 ∷ 1 ∷ 2 ∷ 3 ∷ []

pub eight_keys-IsDistinct : IsDistinct event_body_keys
unfolding contains
eight_keys-IsDistinct = (refl, (refl, (refl, (refl, (refl, (refl, (refl, (refl, tt))))))))

pub ledger_record_keys-IsDistinct : IsDistinct ledger_record_keys
unfolding contains
ledger_record_keys-IsDistinct = (refl, (refl, (refl, (refl, tt))))

-- What the kernel calls and does not implement: the CBOR library at each Go type, and SHA-256.
pub record Libraries : Type 1 where
  pub Any : Type 0
  pub generic : Codec (GenericMap Any)
  pub event_body : Codec EventBodyWire
  pub record_body : Codec RecordBodyWire
  pub ledger_record : Codec LedgerRecordWire
  pub empty_struct : Codec (Unit {0})
  pub sha256 : Bytes → Bytes

-- What the kernel relies on: the libraries' documented behaviour. A struct with no fields encodes
-- as the empty map, and a SHA-256 digest has 32 bytes.
pub record IsDocumented (libraries : Libraries) : Type 0 where
  pub event_body_faithful : IsFaithful libraries.generic libraries.event_body event_body_keys
  pub record_body_reread : IsReread libraries.record_body
  pub ledger_record_reread : IsReread libraries.ledger_record
  pub empty_struct_faithful : IsFaithful libraries.generic libraries.empty_struct []
  pub empty_struct_written :
      libraries.empty_struct.marshal tt ≡ some ledger_initialized_payload_cbor
  pub digest_length : (b : Bytes) → length (libraries.sha256 b) ≡ digest_bytes
