-- ===== src/Endorsement/Statements.antt =====
-- internal/endorsement/v1/payload.go: the statements that are signed off the ledger, and their
-- signatures. A `*ecdsa.PublicKey` is optional, for nil.
use chain_application.Prelude.{
  ℕ, Bytes, Slice, ◌∷◌, ◌++◌, Bool, true, false, not, ◌&&◌, ◌||◌, Option, none, some, ok, err,
  ◌>>=◌, ◌>>◌, fail_if, ◌==◌, ltb, length, contents,
}
use chain_application.Endorsement.Wires.{
  Attempt, Crypto, claim_body_length, domain_proposer_endorsement_v1, domain_revocation_v1,
  domain_subject_acceptance_v1, invalid_role, max_claim_body_bytes, max_reason_length,
  max_signature_bytes, max_topic_length, min_signature_bytes, missing_public_key, panicked,
  payload_version_v1, reason_length, revoker_role_proposer, revoker_role_subject, signature_length,
  signature_mismatch, topic_length,
}

pub record EndorsementProposal (Key : Type 0) : Type 0 where
  pub proposer_public_key : Option Key
  pub subject_public_key : Option Key
  pub topic : Bytes
  pub claim_body_bytes : Slice
  pub proposed_at_unix_ms : ℕ

pub record EndorsementAcceptance : Type 0 where
  pub proposal_digest : Bytes
  pub accepted_at_unix_ms : ℕ

pub record EndorsementRevocation (Key : Type 0) : Type 0 where
  pub target_record_digest : Bytes
  pub revoker_public_key : Option Key
  pub role : ℕ
  pub revoked_at_unix_ms : ℕ
  pub reason : Bytes

abbrev pub is_nil : {A : Type 0} → Option A → Bool
is_nil none = true
is_nil (some a) = false

-- `len(x) < low || len(x) > high`.
abbrev pub out_of_bounds : ℕ → ℕ → Bytes → Bool
out_of_bounds low high b = ltb (length b) low || ltb high (length b)

abbrev pub bad_role : ℕ → Bool
bad_role role = not (role == revoker_role_proposer) && not (role == revoker_role_subject)

unfoldable pub new_proposal :
    {Key : Type 0} → Option Key → Option Key → Bytes → Slice → ℕ → Attempt (EndorsementProposal Key)
new_proposal proposer subject topic claim proposed_at = do
  fail_if (is_nil proposer || is_nil subject) missing_public_key
  fail_if (out_of_bounds 1 max_topic_length topic) topic_length
  fail_if (out_of_bounds 1 max_claim_body_bytes (contents claim)) claim_body_length
  ok (record {
    proposer_public_key = proposer;
    subject_public_key = subject;
    topic = topic;
    claim_body_bytes = claim;
    proposed_at_unix_ms = proposed_at;
  })

-- `NewAcceptance` never fails.
abbrev pub new_acceptance : Bytes → ℕ → EndorsementAcceptance
new_acceptance digest accepted_at = record {
  proposal_digest = digest;
  accepted_at_unix_ms = accepted_at;
}

unfoldable pub new_revocation :
    {Key : Type 0} → Bytes → Option Key → ℕ → ℕ → Bytes → Attempt (EndorsementRevocation Key)
new_revocation target revoker role revoked_at reason = do
  fail_if (is_nil revoker) missing_public_key
  fail_if (bad_role role) (invalid_role role)
  fail_if (ltb max_reason_length (length reason)) reason_length
  ok (record {
    target_record_digest = target;
    revoker_public_key = revoker;
    role = role;
    revoked_at_unix_ms = revoked_at;
    reason = reason;
  })

-- What panics where the library fails.
abbrev pub or_panic {ℓ} : {A : Type ℓ} → Option A → Attempt A
or_panic none = err panicked
or_panic (some a) = ok a

module _ (crypto : Crypto) where
  open crypto use {PublicKey, public_key_bytes, verify_asn1, sha256}

  unfoldable pub domain_separated_digest : Bytes → Bytes → Bytes
  domain_separated_digest domain body = sha256 (domain ++ (0 ∷ body))

  unfoldable pub encode_public_key : Option PublicKey → Attempt Slice
  encode_public_key none = ok none
  encode_public_key (some key) = do b ← or_panic (public_key_bytes key); ok (some b)

  unfoldable pub proposal_digest : EndorsementProposal PublicKey → Attempt Bytes
  proposal_digest p = do
    proposer ← encode_public_key p.proposer_public_key
    subject ← encode_public_key p.subject_public_key
    encoded ← or_panic (
        crypto.proposal_statement.marshal (record {
          version = payload_version_v1;
          proposer_public_key = proposer;
          subject_public_key = subject;
          topic = p.topic;
          claim_body_bytes = p.claim_body_bytes;
          proposed_at_unix_ms = p.proposed_at_unix_ms;
        }))
    ok (domain_separated_digest domain_proposer_endorsement_v1 encoded)

  unfoldable pub acceptance_digest : EndorsementAcceptance → Attempt Bytes
  acceptance_digest a = do
    encoded ← or_panic (
        crypto.acceptance_statement.marshal (record {
          version = payload_version_v1;
          proposal_digest = some a.proposal_digest;
          accepted_at_unix_ms = a.accepted_at_unix_ms;
        }))
    ok (domain_separated_digest domain_subject_acceptance_v1 encoded)

  unfoldable pub revocation_digest : EndorsementRevocation PublicKey → Attempt Bytes
  revocation_digest r = do
    revoker ← encode_public_key r.revoker_public_key
    encoded ← or_panic (
        crypto.revocation_statement.marshal (record {
          version = payload_version_v1;
          target_record_digest = some r.target_record_digest;
          revoker_public_key = revoker;
          role = r.role;
          revoked_at_unix_ms = r.revoked_at_unix_ms;
          reason = r.reason;
        }))
    ok (domain_separated_digest domain_revocation_v1 encoded)

  -- A signature of a nil key would be a nil dereference.
  unfoldable pub verified : Option PublicKey → Bytes → Slice → Attempt (Unit {0})
  verified none digest signature = err panicked
  verified (some key) digest signature =
      fail_if (not (verify_asn1 key digest signature)) signature_mismatch

  -- The three `VerifySignature` methods.
  unfoldable pub verify_proposal_signature :
      EndorsementProposal PublicKey → Slice → Attempt (Unit {0})
  verify_proposal_signature p signature = do
    fail_if (out_of_bounds min_signature_bytes max_signature_bytes (contents signature))
        signature_length
    digest ← proposal_digest p
    verified p.proposer_public_key digest signature

  unfoldable pub verify_acceptance_signature :
      EndorsementAcceptance → Option PublicKey → Slice → Attempt (Unit {0})
  verify_acceptance_signature a subject signature = do
    fail_if (out_of_bounds min_signature_bytes max_signature_bytes (contents signature))
        signature_length
    digest ← acceptance_digest a
    verified subject digest signature

  unfoldable pub verify_revocation_signature :
      EndorsementRevocation PublicKey → Slice → Attempt (Unit {0})
  verify_revocation_signature r signature = do
    fail_if (out_of_bounds min_signature_bytes max_signature_bytes (contents signature))
        signature_length
    digest ← revocation_digest r
    verified r.revoker_public_key digest signature
