-- ===== src/Ledger/Constants.antt =====
-- The constants of internal/ledger/v1/constants.go.
use chain_application.Prelude.{ℕ, ◌-◌, ◌^◌, Bytes, ascii, [], ◌∷◌}

abbrev pub protocol_version_v1 : ℕ
protocol_version_v1 = 1

abbrev pub record_version_v1 : ℕ
record_version_v1 = 1

abbrev pub ledger_initialized_payload_version_v1 : ℕ
ledger_initialized_payload_version_v1 = 1

abbrev pub digest_algorithm_sha256 : Bytes
digest_algorithm_sha256 = ascii "sha-256"

abbrev pub signature_algorithm_p256 : Bytes
signature_algorithm_p256 = ascii "ecdsa-p256-sha256"

abbrev pub signature_encoding_asn1_der : Bytes
signature_encoding_asn1_der = ascii "asn1-der"

abbrev pub domain_event_digest_v1 : Bytes
domain_event_digest_v1 = ascii "attribution-chain:event-digest:v1"

abbrev pub domain_record_digest_v1 : Bytes
domain_record_digest_v1 = ascii "attribution-chain:record-digest:v1"

abbrev pub digest_domain_separator : ℕ
digest_domain_separator = 0

abbrev pub ledger_initialized_payload_cbor : Bytes
ledger_initialized_payload_cbor = 0xa0 ∷ []

abbrev pub max_payload_bytes : ℕ
max_payload_bytes = 65_536

abbrev pub max_event_body_bytes : ℕ
max_event_body_bytes = 98_304

abbrev pub max_record_body_bytes : ℕ
max_record_body_bytes = 131_072

abbrev pub max_ledger_record_bytes : ℕ
max_ledger_record_bytes = 131_200

abbrev pub max_signer_reference_bytes : ℕ
max_signer_reference_bytes = 512

abbrev pub min_signature_bytes : ℕ
min_signature_bytes = 8

abbrev pub max_signature_bytes : ℕ
max_signature_bytes = 72

abbrev pub digest_bytes : ℕ
digest_bytes = 32

abbrev pub ledger_id_bytes : ℕ
ledger_id_bytes = 32

abbrev pub event_kind_ledger_initialized : ℕ
event_kind_ledger_initialized = 1

abbrev pub event_kind_endorsement_accepted : ℕ
event_kind_endorsement_accepted = 2

abbrev pub event_kind_endorsement_revoked : ℕ
event_kind_endorsement_revoked = 3

-- `math.MaxUint64`, and the modulus at which Go's uint64 wraps around.
abbrev pub max_uint64 : ℕ
max_uint64 = 2 ^ 64 - 1

abbrev pub uint64_mod : ℕ
uint64_mod = 2 ^ 64
