-- ===== src/Ledger/Record/Structure.antt =====
-- What structural validation of a record accepts.
use chain_application.Prelude.{
  ◌≤◌, ◌<◌, ◌≡◌, ◌↔◌, refl, Bytes, contents, [], ◌∷◌, true, ok, arith, length, bytes_equal_iff,
}
use chain_application.Ledger.Constants.{
  record_version_v1, digest_bytes, digest_algorithm_sha256, signature_algorithm_p256,
  signature_encoding_asn1_der, max_record_body_bytes, max_event_body_bytes,
  max_signer_reference_bytes, min_signature_bytes, max_signature_bytes,
}
use chain_application.Ledger.Wires.{RecordBodyWire, LedgerRecordWire}
use chain_application.Ledger.Record.{
  all_printable, validate_signer_key_reference, is_valid_signature_length,
  validate_ledger_record_wire, validate_record_body_wire,
}

-- Every byte is a printable ASCII character.
abbrev pub IsPrintable : Bytes → Type 0
IsPrintable [] = Unit
IsPrintable (c ∷ cs) = (0x20 ≤ c) × (c ≤ 0x7e) × IsPrintable cs

all_printable→IsPrintable : (b : Bytes) → all_printable b ≡ true → IsPrintable b
unfolding all_printable
all_printable→IsPrintable [] h = tt
all_printable→IsPrintable (c ∷ cs) h =
    (ground arith, ground arith, all_printable→IsPrintable cs (ground arith))

IsPrintable→all_printable : (b : Bytes) → IsPrintable b → all_printable b ≡ true
unfolding all_printable
IsPrintable→all_printable [] h = refl
IsPrintable→all_printable (c ∷ cs) h = ground (arith, IsPrintable→all_printable cs h.2)

-- A reference to a signing key that the protocol accepts.
pub record IsKeyReference (reference : Bytes) : Type 0 where
  pub nonempty : 0 < length reference
  pub fits : length reference ≤ max_signer_reference_bytes
  pub printable : IsPrintable reference

-- A key reference is accepted exactly when it has 1 to 512 bytes, all of them printable ASCII.
pub validate_signer_key_reference_iff :
    (reference : Bytes)
    → (validate_signer_key_reference reference ≡ ok tt) ↔ IsKeyReference reference
unfolding validate_signer_key_reference
validate_signer_key_reference_iff reference = (
  λ h. record {
    nonempty = ground arith;
    fits = ground arith;
    printable = all_printable→IsPrintable reference (ground arith);
  },
  λ k. ground (arith, IsPrintable→all_printable reference k.printable),
)

-- The protocol's bounds on the outer struct of a record, and on its body.
pub record IsValidOuter (wire : LedgerRecordWire) : Type 0 where
  pub version : wire.record_version ≡ record_version_v1
  pub body_pos : 0 < length (contents wire.record_body_bytes)
  pub body_fits : length (contents wire.record_body_bytes) ≤ max_record_body_bytes
  pub algorithm : wire.record_digest_algorithm ≡ digest_algorithm_sha256
  pub digest_length : length (contents wire.record_digest) ≡ digest_bytes

pub record IsValidBody (wire : RecordBodyWire) : Type 0 where
  pub version : wire.record_version ≡ record_version_v1
  pub event_pos : 0 < length (contents wire.event_body_bytes)
  pub event_fits : length (contents wire.event_body_bytes) ≤ max_event_body_bytes
  pub algorithm : wire.event_digest_algorithm ≡ digest_algorithm_sha256
  pub digest_length : length (contents wire.event_digest) ≡ digest_bytes
  pub key_reference : IsKeyReference wire.signer_key_reference
  pub signature_algorithm : wire.signature_algorithm ≡ signature_algorithm_p256
  pub signature_encoding : wire.signature_encoding ≡ signature_encoding_asn1_der
  pub signature_min : min_signature_bytes ≤ length (contents wire.signature_bytes)
  pub signature_max : length (contents wire.signature_bytes) ≤ max_signature_bytes

pub validate_ledger_record_wire_iff :
    (wire : LedgerRecordWire) → (validate_ledger_record_wire wire ≡ ok tt) ↔ IsValidOuter wire
unfolding validate_ledger_record_wire
validate_ledger_record_wire_iff wire =
    let same = bytes_equal_iff wire.record_digest_algorithm digest_algorithm_sha256 in
    (λ h. ground (arith, same), λ v. ground (arith, same))

-- A record body is accepted exactly when its version, lengths, algorithms, key reference and
-- signature are within the protocol's bounds.
pub validate_record_body_wire_iff :
    (wire : RecordBodyWire) → (validate_record_body_wire wire ≡ ok tt) ↔ IsValidBody wire
unfolding validate_record_body_wire is_valid_signature_length
validate_record_body_wire_iff wire =
    let digest_same = bytes_equal_iff wire.event_digest_algorithm digest_algorithm_sha256 in
    let algorithm_same = bytes_equal_iff wire.signature_algorithm signature_algorithm_p256 in
    let encoding_same = bytes_equal_iff wire.signature_encoding signature_encoding_asn1_der in
    let reference_ok = validate_signer_key_reference_iff wire.signer_key_reference in
    (
      λ h. record {
        version = ground arith;
        event_pos = ground arith;
        event_fits = ground arith;
        algorithm = digest_same.0 (ground arith);
        digest_length = ground arith;
        key_reference = reference_ok.0 (ground arith);
        signature_algorithm = algorithm_same.0 (ground arith);
        signature_encoding = encoding_same.0 (ground arith);
        signature_min = ground arith;
        signature_max = ground arith;
      },
      λ v.
          rw
            (
              reference_ok.1 v.key_reference,
              digest_same.1 v.algorithm,
              algorithm_same.1 v.signature_algorithm,
              encoding_same.1 v.signature_encoding,
            )
            (ground arith),
    )
