-- ===== src/Endorsement/Verification.antt =====
-- What it takes for the signatures of a payload to be accepted.
use chain_application.Prelude.{
  held, Bytes, contents, ◌≡◌, ◌↔◌, ◌≢◌, subst, arith, true, none, some, ok, Result-cases, inl, inr,
}
use chain_application.Endorsement.Wires.{
  Crypto, domain_proposer_endorsement_v1, domain_subject_acceptance_v1,
}
use chain_application.Endorsement.Statements.{
  EndorsementProposal, new_proposal, new_acceptance, domain_separated_digest, encode_public_key,
  proposal_digest, acceptance_digest, verified, verify_proposal_signature,
  verify_acceptance_signature,
}
use chain_application.Endorsement.Payloads.{EndorsementAcceptedPayload, verify_accepted_payload}
use chain_application.Endorsement.Signatures.{
  IsWithin, IsSignedBy, proposal_digest_ok, acceptance_digest_ok, proposal_signature_ok,
  acceptance_signature_ok,
}

module _ (crypto : Crypto) where
  open crypto use {
    PublicKey, public_key_bytes, verify_asn1, proposal_statement, acceptance_statement,
    revocation_statement, sha256,
  }

  -- The proposer has signed the proposal, and the subject the digest of that proposal.
  pub record IsSigned (p : EndorsementAcceptedPayload PublicKey) : Type 0 where
    pub proposer : PublicKey
    pub subject : PublicKey
    pub proposer_bytes : Bytes
    pub subject_bytes : Bytes
    pub proposal : Bytes
    pub acceptance : Bytes
    pub has_proposer : p.proposer_public_key ≡ some proposer
    pub has_subject : p.subject_public_key ≡ some subject
    pub topic_fits : IsWithin 1 128 p.topic
    pub claim_fits : IsWithin 1 4096 (contents p.claim_body_bytes)
    pub proposer_encoded : public_key_bytes proposer ≡ some proposer_bytes
    pub subject_encoded : public_key_bytes subject ≡ some subject_bytes
    pub proposed :
        proposal_statement.marshal (record {
          version = 1;
          proposer_public_key = some proposer_bytes;
          subject_public_key = some subject_bytes;
          topic = p.topic;
          claim_body_bytes = p.claim_body_bytes;
          proposed_at_unix_ms = p.proposed_at_unix_ms;
        })
        ≡ some proposal
    pub accepted :
        acceptance_statement.marshal (record {
          version = 1;
          proposal_digest =
              some (domain_separated_digest crypto domain_proposer_endorsement_v1 proposal);
          accepted_at_unix_ms = p.accepted_at_unix_ms;
        })
        ≡ some acceptance
    pub proposer_signed :
        IsSignedBy crypto proposer domain_proposer_endorsement_v1 proposal p.proposer_signature
    pub subject_signed :
        IsSignedBy crypto subject domain_subject_acceptance_v1 acceptance p.subject_signature

  -- The statements that the code builds.
  abbrev proposal_of : EndorsementAcceptedPayload PublicKey → EndorsementProposal PublicKey
  proposal_of p = record {
    proposer_public_key = p.proposer_public_key;
    subject_public_key = p.subject_public_key;
    topic = p.topic;
    claim_body_bytes = p.claim_body_bytes;
    proposed_at_unix_ms = p.proposed_at_unix_ms;
  }

  -- The two checks that a verification consists of.
  record IsChecked (p : EndorsementAcceptedPayload PublicKey) : Type 0 where
    keys : (p.proposer_public_key ≢ none) × (p.subject_public_key ≢ none)
    topic : IsWithin 1 128 p.topic
    claim : IsWithin 1 4096 (contents p.claim_body_bytes)
    digest : Bytes
    digested : proposal_digest crypto (proposal_of p) ≡ ok digest
    first : verify_proposal_signature crypto (proposal_of p) p.proposer_signature ≡ ok tt
    second :
        verify_acceptance_signature crypto
          (new_acceptance digest p.accepted_at_unix_ms)
          p.subject_public_key
          p.subject_signature
        ≡ ok tt

  verify→IsChecked :
      (p : EndorsementAcceptedPayload PublicKey)
      → verify_accepted_payload crypto p ≡ ok tt
      → IsChecked p
  unfolding verify_accepted_payload new_proposal
  verify→IsChecked p h = elim (Result-cases (proposal_digest crypto (proposal_of p))) [
    | inr (e, bad) ↦ absurd (ground arith)
    | inl (d, fine) ↦ record {
      keys = ground arith;
      topic = ground arith;
      claim = ground arith;
      digest = d;
      digested = fine;
      first = ground arith;
      second = ground arith;
    }
  ]

  IsChecked→IsSigned : (p : EndorsementAcceptedPayload PublicKey) → IsChecked p → IsSigned p
  IsChecked→IsSigned p c =
      let (a, e) = held p.proposer_public_key c.keys.0 in
      let (b, f) = held p.subject_public_key c.keys.1 in
      let (x, y, s, xe, ye, se, de) =
        proposal_digest_ok crypto (proposal_of p) a b c.digest e f c.digested in
      let (d, dd, ds) =
        acceptance_signature_ok crypto (new_acceptance c.digest p.accepted_at_unix_ms)
          p.subject_public_key b p.subject_signature f c.second in
      let (t, te, ty) =
        acceptance_digest_ok crypto (new_acceptance c.digest p.accepted_at_unix_ms) d dd in
      record {
        proposer = a;
        subject = b;
        proposer_bytes = x;
        subject_bytes = y;
        proposal = s;
        acceptance = t;
        has_proposer = e;
        has_subject = f;
        topic_fits = c.topic;
        claim_fits = c.claim;
        proposer_encoded = xe;
        subject_encoded = ye;
        proposed = se;
        accepted =
            subst
              (λ z.
                acceptance_statement.marshal (record {
                  version = 1;
                  proposal_digest = some z;
                  accepted_at_unix_ms = p.accepted_at_unix_ms;
                })
                ≡ some t)
              de te;
        proposer_signed =
            subst
              (λ z.
                IsWithin 8 72 (contents p.proposer_signature)
                × (verify_asn1 a z p.proposer_signature ≡ true))
              de
              (proposal_signature_ok crypto (proposal_of p) a p.proposer_signature c.digest e
                c.digested c.first);
        subject_signed =
            subst
              (λ z.
                IsWithin 8 72 (contents p.subject_signature)
                × (verify_asn1 b z p.subject_signature ≡ true))
              ty ds;
      }

  IsSigned→verify :
      (p : EndorsementAcceptedPayload PublicKey)
      → IsSigned p
      → verify_accepted_payload crypto p ≡ ok tt
  unfolding verify_accepted_payload new_proposal encode_public_key proposal_digest acceptance_digest
      verified verify_proposal_signature verify_acceptance_signature
  IsSigned→verify p s = ground (
    arith, s.has_proposer, s.has_subject, s.topic_fits, s.claim_fits, s.proposer_encoded,
    s.subject_encoded, s.proposed, s.accepted, s.proposer_signed, s.subject_signed,
  )

  -- An endorsement passes verification exactly when its fields are within bounds, the proposer has
  -- signed the encoded proposal under the proposal domain, and the subject has signed the digest of
  -- that proposal under the acceptance domain.
  pub verify_accepted_payload_iff :
      (p : EndorsementAcceptedPayload PublicKey)
      → (verify_accepted_payload crypto p ≡ ok tt) ↔ IsSigned p
  verify_accepted_payload_iff p =
      (λ h. IsChecked→IsSigned p (verify→IsChecked p h), IsSigned→verify p)
