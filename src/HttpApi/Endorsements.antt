-- ===== src/HttpApi/Endorsements.antt =====
-- internal/httpapi/server.go: AcceptEndorsement and RevokeEndorsement.
use chain_application.Prelude.{
  Bytes, Slice, [], not, Option, none, some, Result, ok, err, map_err, ◌>>=◌, ◌>>◌, fail_if,
  decode_hex, encode_hex, ℤ, to_uint64, of_uint64,
}
use chain_application.Ledger.Wires.{Libraries}
use chain_application.Ledger.Record.{StructuralRecord}
use chain_application.Endorsement.Wires.{Crypto}
use chain_application.Endorsement.Payloads.{
  EndorsementAcceptedPayload, EndorsementRevokedPayload, new_accepted_payload, new_revoked_payload,
}
use chain_application.Admission.{Environment, Admitted, admit_endorsement, admit_revocation}
use chain_application.HttpApi.{
  Refusal, Response, Server, or_refuse, parse_hex32, parse_hex_public_key, success, refused,
  admission_unavailable, invalid_ledger_id, missing_body, invalid_proposer_public_key,
  invalid_subject_public_key, invalid_claim_body, invalid_proposer_signature,
  invalid_subject_signature, invalid_target, invalid_revoker_public_key, invalid_revoker_signature,
  invalid_payload, not_admitted,
}

pub record AcceptEndorsementRequest : Type 0 where
  pub proposer_public_key_hex : Bytes
  pub subject_public_key_hex : Bytes
  pub topic : Bytes
  pub claim_body_hex : Bytes
  pub proposed_at_unix_ms : ℤ
  pub proposer_signature_hex : Bytes
  pub accepted_at_unix_ms : ℤ
  pub subject_signature_hex : Bytes

pub record RevokeEndorsementRequest : Type 0 where
  pub target_record_digest : Bytes
  pub revoker_public_key_hex : Bytes
  pub role : ℤ
  pub revoked_at_unix_ms : ℤ
  pub reason : Option Bytes
  pub revoker_signature_hex : Bytes

pub record AdmitResponse : Type 0 where
  pub ledger_id : Bytes
  pub sequence_number : ℤ
  pub record_digest : Bytes
  pub event_kind : ℤ

abbrev pub admit_response : Bytes → StructuralRecord → AdmitResponse
admit_response id r = record {
  ledger_id = encode_hex id;
  sequence_number = of_uint64 r.event.sequence;
  record_digest = encode_hex r.record_digest;
  event_kind = of_uint64 r.event.kind;
}

-- `reason := ""`, or the text that the pointer holds.
abbrev pub reason_of : Option Bytes → Bytes
reason_of none = []
reason_of (some reason) = reason

-- The first three guards of both handlers, on the ledger identifier that is read, and the rest of the
-- request.
unfoldable pub parsed_request :
    {B P : Type 0}
    → Server
    → (B → Result Refusal P)
    → Option Bytes
    → Option B
    → Result Refusal (Bytes × P)
parsed_request server payload_of ledger_id body = do
  fail_if (not server.has_admission) admission_unavailable
  id ← or_refuse invalid_ledger_id ledger_id
  present ← or_refuse missing_body body
  payload ← payload_of present
  ok (id, payload)

module _ (crypto : Crypto) where
  open crypto use {PublicKey}

  -- What the handler reads of its request, below its first three guards: from the keys, the claim and
  -- the signatures that its texts stand for.
  unfoldable pub accepted_from :
      AcceptEndorsementRequest
      → Option PublicKey
      → Option PublicKey
      → Slice
      → Slice
      → Slice
      → Result Refusal (EndorsementAcceptedPayload PublicKey)
  accepted_from body proposer_key subject_key claim first_signature second_signature = do
    proposer_pub ← or_refuse invalid_proposer_public_key proposer_key
    subject_pub ← or_refuse invalid_subject_public_key subject_key
    claim_body ← or_refuse invalid_claim_body claim
    proposer_sig ← or_refuse invalid_proposer_signature first_signature
    subject_sig ← or_refuse invalid_subject_signature second_signature
    map_err invalid_payload (
        new_accepted_payload (record {
          proposer_public_key = some proposer_pub;
          subject_public_key = some subject_pub;
          topic = body.topic;
          claim_body_bytes = some claim_body;
          proposed_at_unix_ms = to_uint64 body.proposed_at_unix_ms;
          proposer_signature = some proposer_sig;
          accepted_at_unix_ms = to_uint64 body.accepted_at_unix_ms;
          subject_signature = some subject_sig;
        }))

  abbrev pub accepted_of :
      AcceptEndorsementRequest → Result Refusal (EndorsementAcceptedPayload PublicKey)
  accepted_of body =
      accepted_from body (parse_hex_public_key crypto body.proposer_public_key_hex)
        (parse_hex_public_key crypto body.subject_public_key_hex) (decode_hex body.claim_body_hex)
        (decode_hex body.proposer_signature_hex) (decode_hex body.subject_signature_hex)

  unfoldable pub revoked_from :
      RevokeEndorsementRequest
      → Option Bytes
      → Option PublicKey
      → Slice
      → Result Refusal (EndorsementRevokedPayload PublicKey)
  revoked_from body digest revoker_key signature = do
    target ← or_refuse invalid_target digest
    revoker_pub ← or_refuse invalid_revoker_public_key revoker_key
    revoker_sig ← or_refuse invalid_revoker_signature signature
    map_err invalid_payload (
        new_revoked_payload (record {
          target_record_digest = target;
          revoker_public_key = some revoker_pub;
          role = to_uint64 body.role;
          revoked_at_unix_ms = to_uint64 body.revoked_at_unix_ms;
          reason = reason_of body.reason;
          revoker_signature = some revoker_sig;
        }))

  abbrev pub revoked_of :
      RevokeEndorsementRequest → Result Refusal (EndorsementRevokedPayload PublicKey)
  revoked_of body =
      revoked_from body (parse_hex32 body.target_record_digest)
        (parse_hex_public_key crypto body.revoker_public_key_hex)
        (decode_hex body.revoker_signature_hex)

  module _ (server : Server) (libraries : Libraries) (environment : Environment) where
    open environment use {database}
    open database use {World}

    abbrev pub answered : Bytes → Admitted libraries environment → World × Response AdmitResponse
    answered id (world, ok r) = (world, success 201 (admit_response id r))
    answered id (world, err e) = (world, refused 400 (not_admitted e))

    -- The refusals of the parsing, or what comes next.
    abbrev pub with_parsed :
        {P : Type 0}
        → World
        → (Bytes × P → World × Response AdmitResponse)
        → Result Refusal (Bytes × P)
        → World × Response AdmitResponse
    with_parsed world next (err r) = (world, refused 400 r)
    with_parsed world next (ok parsed) = next parsed

    unfoldable pub accept_endorsement :
        Bytes → Option AcceptEndorsementRequest → World → World × Response AdmitResponse
    accept_endorsement ledger_id body world =
        with_parsed world
          (λ parsed. answered parsed.0 (
            admit_endorsement libraries environment crypto server.max_retries parsed.0
              (some parsed.1) world))
          (parsed_request server accepted_of (parse_hex32 ledger_id) body)

    unfoldable pub revoke_endorsement :
        Bytes → Option RevokeEndorsementRequest → World → World × Response AdmitResponse
    revoke_endorsement ledger_id body world =
        with_parsed world
          (λ parsed. answered parsed.0 (
            admit_revocation libraries environment crypto server.max_retries parsed.0
              (some parsed.1) world))
          (parsed_request server revoked_of (parse_hex32 ledger_id) body)
