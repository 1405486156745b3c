-- ===== src/Graph/Edge.antt =====
-- internal/graph/v1/edge.go. The defensive copies of the claim body are left out, since no byte
-- sequence here is shared; the accessors are the fields.
use chain_application.Prelude.{ℕ, Bytes, Bool, true, Option, none, []}

pub record AttestationEdge : Type 0 where
  pub record_digest : Bytes
  pub sequence : ℕ
  pub proposer : Bytes
  pub subject : Bytes
  pub topic : Bytes
  pub claim_body : Bytes
  pub proposed_at_unix_ms : ℕ
  pub accepted_at_unix_ms : ℕ
  pub is_active : Bool
  pub revoked_at_unix_ms : Option ℕ
  pub revocation_record_digest : Option Bytes
  pub revocation_reason : Bytes
  pub revoker_role : ℕ

abbrev pub new_attestation_edge :
    Bytes → ℕ → Bytes → Bytes → Bytes → Bytes → ℕ → ℕ → AttestationEdge
new_attestation_edge digest sequence proposer subject topic claim proposed_at accepted_at = record {
  record_digest = digest;
  sequence = sequence;
  proposer = proposer;
  subject = subject;
  topic = topic;
  claim_body = claim;
  proposed_at_unix_ms = proposed_at;
  accepted_at_unix_ms = accepted_at;
  is_active = true;
  revoked_at_unix_ms = none;
  revocation_record_digest = none;
  revocation_reason = [];
  revoker_role = 0;
}
