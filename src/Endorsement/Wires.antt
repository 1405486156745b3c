-- ===== src/Endorsement/Wires.antt =====
-- internal/endorsement/v1/payload.go: its constants, errors and wire structs, and what the package
-- calls and does not implement.
use chain_application.Prelude.{ℕ, Bytes, Slice, Bool, Option, Result, ascii}
use chain_application.Ledger.Codec.{CborError, Codec}

abbrev pub payload_version_v1 : ℕ
payload_version_v1 = 1

abbrev pub domain_proposer_endorsement_v1 : Bytes
domain_proposer_endorsement_v1 = ascii "attribution-chain:endorsement-proposal:v1"

abbrev pub domain_subject_acceptance_v1 : Bytes
domain_subject_acceptance_v1 = ascii "attribution-chain:endorsement-acceptance:v1"

abbrev pub domain_revocation_v1 : Bytes
domain_revocation_v1 = ascii "attribution-chain:endorsement-revocation:v1"

abbrev pub max_topic_length : ℕ
max_topic_length = 128

abbrev pub max_claim_body_bytes : ℕ
max_claim_body_bytes = 4096

abbrev pub max_reason_length : ℕ
max_reason_length = 256

abbrev pub min_signature_bytes : ℕ
min_signature_bytes = 8

abbrev pub max_signature_bytes : ℕ
max_signature_bytes = 72

abbrev pub revoker_role_proposer : ℕ
revoker_role_proposer = 1

abbrev pub revoker_role_subject : ℕ
revoker_role_subject = 2

-- `panicked` is a panic: a key or a statement that cannot be encoded.
pub data PayloadError : Type 0 where
  missing_public_key topic_length claim_body_length signature_length : PayloadError
  signature_mismatch empty_public_key bad_public_key target_length : PayloadError
  reason_length encoding_failed panicked : PayloadError
  invalid_role unsupported_payload_version : ℕ → PayloadError
  undecodable : CborError → PayloadError

abbrev pub Attempt {ℓ} : Type ℓ → Type ℓ
Attempt A = Result PayloadError A

pub record ProposalStatementWire : Type 0 where
  pub version : ℕ
  pub proposer_public_key : Slice
  pub subject_public_key : Slice
  pub topic : Bytes
  pub claim_body_bytes : Slice
  pub proposed_at_unix_ms : ℕ

pub record AcceptanceStatementWire : Type 0 where
  pub version : ℕ
  pub proposal_digest : Slice
  pub accepted_at_unix_ms : ℕ

pub record RevocationStatementWire : Type 0 where
  pub version : ℕ
  pub target_record_digest : Slice
  pub revoker_public_key : Slice
  pub role : ℕ
  pub revoked_at_unix_ms : ℕ
  pub reason : Bytes

pub record AcceptedPayloadWire : Type 0 where
  pub version : ℕ
  pub proposer_public_key : Slice
  pub subject_public_key : Slice
  pub topic : Bytes
  pub claim_body_bytes : Slice
  pub proposed_at_unix_ms : ℕ
  pub proposer_signature : Slice
  pub accepted_at_unix_ms : ℕ
  pub subject_signature : Slice

pub record RevokedPayloadWire : Type 0 where
  pub version : ℕ
  pub target_record_digest : Slice
  pub revoker_public_key : Slice
  pub role : ℕ
  pub revoked_at_unix_ms : ℕ
  pub reason : Bytes
  pub revoker_signature : Slice

-- What the package calls and does not implement: the P-256 keys and signatures, the CBOR library
-- at its wire structs, and SHA-256.
pub record Crypto : Type 1 where
  pub PublicKey : Type 0
  pub parse_public_key : Bytes → Option PublicKey
  pub public_key_bytes : PublicKey → Option Bytes
  pub verify_asn1 : PublicKey → Bytes → Slice → Bool
  pub sha256 : Bytes → Bytes
  pub proposal_statement : Codec ProposalStatementWire
  pub acceptance_statement : Codec AcceptanceStatementWire
  pub revocation_statement : Codec RevocationStatementWire
  pub accepted_payload : Codec AcceptedPayloadWire
  pub revoked_payload : Codec RevokedPayloadWire
