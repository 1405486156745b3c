-- ===== src/Endorsement/Payloads.antt =====
-- internal/endorsement/v1/payload.go: the payloads on the ledger, built, encoded, decoded and
-- verified.
use chain_application.Prelude.{
  ℕ, Bytes, Slice, not, ◌||◌, Option, none, some, Result, ok, err, ◌>>=◌, ◌>>◌, fail_if, ◌==◌, ltb,
  length, contents, replicate, copy,
}
use chain_application.Ledger.Codec.{CborError}
use chain_application.Endorsement.Wires.{
  missing_public_key, topic_length, claim_body_length, signature_length, empty_public_key,
  bad_public_key, target_length, reason_length, encoding_failed, invalid_role,
  unsupported_payload_version, undecodable, Attempt, Crypto, payload_version_v1, max_topic_length,
  max_claim_body_bytes, max_reason_length, min_signature_bytes, max_signature_bytes,
}
use chain_application.Endorsement.Statements.{
  is_nil, out_of_bounds, bad_role, encode_public_key, new_proposal, proposal_digest,
  verify_proposal_signature, new_acceptance, verify_acceptance_signature, new_revocation,
  verify_revocation_signature,
}

pub record EndorsementAcceptedPayload (Key : Type 0) : Type 0 where
  pub proposer_public_key : Option Key
  pub subject_public_key : Option Key
  pub topic : Bytes
  pub claim_body_bytes : Slice
  pub proposed_at_unix_ms : ℕ
  pub proposer_signature : Slice
  pub accepted_at_unix_ms : ℕ
  pub subject_signature : Slice

pub record EndorsementRevokedPayload (Key : Type 0) : Type 0 where
  pub target_record_digest : Bytes
  pub revoker_public_key : Option Key
  pub role : ℕ
  pub revoked_at_unix_ms : ℕ
  pub reason : Bytes
  pub revoker_signature : Slice

-- The constructors take their fields in a record.
unfoldable pub new_accepted_payload :
    {Key : Type 0} → EndorsementAcceptedPayload Key → Attempt (EndorsementAcceptedPayload Key)
new_accepted_payload p = do
  fail_if (is_nil p.proposer_public_key || is_nil p.subject_public_key) missing_public_key
  fail_if (out_of_bounds 1 max_topic_length p.topic) topic_length
  fail_if (out_of_bounds 1 max_claim_body_bytes (contents p.claim_body_bytes)) claim_body_length
  fail_if (out_of_bounds min_signature_bytes max_signature_bytes (contents p.proposer_signature))
      signature_length
  fail_if (out_of_bounds min_signature_bytes max_signature_bytes (contents p.subject_signature))
      signature_length
  ok p

unfoldable pub new_revoked_payload :
    {Key : Type 0} → EndorsementRevokedPayload Key → Attempt (EndorsementRevokedPayload Key)
new_revoked_payload r = do
  fail_if (is_nil r.revoker_public_key) missing_public_key
  fail_if (bad_role r.role) (invalid_role r.role)
  fail_if (ltb max_reason_length (length r.reason)) reason_length
  fail_if (out_of_bounds min_signature_bytes max_signature_bytes (contents r.revoker_signature))
      signature_length
  ok r

abbrev pub encoding {ℓ} : {A : Type ℓ} → Option A → Attempt A
encoding none = err encoding_failed
encoding (some a) = ok a

abbrev pub decoding {ℓ} : {A : Type ℓ} → Result CborError A → Attempt A
decoding (ok a) = ok a
decoding (err e) = err (undecodable e)

abbrev pub parsed {ℓ} : {A : Type ℓ} → Option A → Attempt A
parsed none = err bad_public_key
parsed (some key) = ok key

module _ (crypto : Crypto) where
  open crypto use {PublicKey, parse_public_key, accepted_payload, revoked_payload}

  unfoldable pub encode_accepted_payload : EndorsementAcceptedPayload PublicKey → Attempt Bytes
  encode_accepted_payload p = do
    proposer ← encode_public_key crypto p.proposer_public_key
    subject ← encode_public_key crypto p.subject_public_key
    encoding (
        accepted_payload.marshal (record {
          version = payload_version_v1;
          proposer_public_key = proposer;
          subject_public_key = subject;
          topic = p.topic;
          claim_body_bytes = p.claim_body_bytes;
          proposed_at_unix_ms = p.proposed_at_unix_ms;
          proposer_signature = p.proposer_signature;
          accepted_at_unix_ms = p.accepted_at_unix_ms;
          subject_signature = p.subject_signature;
        }))

  unfoldable pub encode_revoked_payload : EndorsementRevokedPayload PublicKey → Attempt Bytes
  encode_revoked_payload r = do
    revoker ← encode_public_key crypto r.revoker_public_key
    encoding (
        revoked_payload.marshal (record {
          version = payload_version_v1;
          target_record_digest = some r.target_record_digest;
          revoker_public_key = revoker;
          role = r.role;
          revoked_at_unix_ms = r.revoked_at_unix_ms;
          reason = r.reason;
          revoker_signature = r.revoker_signature;
        }))

  unfoldable pub decode_public_key : Slice → Attempt PublicKey
  decode_public_key b = do
    fail_if (length (contents b) == 0) empty_public_key
    parsed (parse_public_key (contents b))

  unfoldable pub decode_accepted_payload : Bytes → Attempt (EndorsementAcceptedPayload PublicKey)
  decode_accepted_payload encoded = do
    wire ← decoding (accepted_payload.unmarshal encoded)
    fail_if (not (wire.version == payload_version_v1)) (unsupported_payload_version wire.version)
    proposer ← decode_public_key wire.proposer_public_key
    subject ← decode_public_key wire.subject_public_key
    new_accepted_payload (record {
      proposer_public_key = some proposer;
      subject_public_key = some subject;
      topic = wire.topic;
      claim_body_bytes = wire.claim_body_bytes;
      proposed_at_unix_ms = wire.proposed_at_unix_ms;
      proposer_signature = wire.proposer_signature;
      accepted_at_unix_ms = wire.accepted_at_unix_ms;
      subject_signature = wire.subject_signature;
    })

  unfoldable pub decode_revoked_payload : Bytes → Attempt (EndorsementRevokedPayload PublicKey)
  decode_revoked_payload encoded = do
    wire ← decoding (revoked_payload.unmarshal encoded)
    fail_if (not (wire.version == payload_version_v1)) (unsupported_payload_version wire.version)
    fail_if (not (length (contents wire.target_record_digest) == 32)) target_length
    revoker ← decode_public_key wire.revoker_public_key
    new_revoked_payload (record {
      target_record_digest = copy (replicate 32 0) (contents wire.target_record_digest);
      revoker_public_key = some revoker;
      role = wire.role;
      revoked_at_unix_ms = wire.revoked_at_unix_ms;
      reason = wire.reason;
      revoker_signature = wire.revoker_signature;
    })

  unfoldable pub verify_accepted_payload : EndorsementAcceptedPayload PublicKey → Attempt (Unit {0})
  verify_accepted_payload p = do
    proposal ←
        new_proposal p.proposer_public_key p.subject_public_key p.topic p.claim_body_bytes
          p.proposed_at_unix_ms
    verify_proposal_signature crypto proposal p.proposer_signature
    digest ← proposal_digest crypto proposal
    verify_acceptance_signature crypto (new_acceptance digest p.accepted_at_unix_ms)
        p.subject_public_key p.subject_signature

  unfoldable pub verify_revoked_payload : EndorsementRevokedPayload PublicKey → Attempt (Unit {0})
  verify_revoked_payload r = do
    revocation ←
        new_revocation r.target_record_digest r.revoker_public_key r.role r.revoked_at_unix_ms
          r.reason
    verify_revocation_signature crypto revocation r.revoker_signature
