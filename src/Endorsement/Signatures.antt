-- ===== src/Endorsement/Signatures.antt =====
-- What the digests of the statements are taken from, and what a signature that is accepted signs.
use chain_application.Prelude.{
  held, ℕ, Bytes, Slice, contents, ◌≡◌, arith, ◌≤◌, length, true, Option, some, ok, Result-cases,
  inl, inr,
}
use chain_application.Endorsement.Wires.{
  Crypto, domain_proposer_endorsement_v1, domain_subject_acceptance_v1,
}
use chain_application.Endorsement.Statements.{
  EndorsementProposal, EndorsementAcceptance, domain_separated_digest, encode_public_key,
  proposal_digest, acceptance_digest, verified, verify_proposal_signature,
  verify_acceptance_signature,
}

-- The length is between the two bounds.
abbrev pub IsWithin : ℕ → ℕ → Bytes → Type 0
IsWithin low high b = (low ≤ length b) × (length b ≤ high)

module _ (crypto : Crypto) where
  open crypto use {
    PublicKey, public_key_bytes, verify_asn1, proposal_statement, acceptance_statement,
    revocation_statement, sha256,
  }

  -- The bytes that are signed: the domain, a zero byte and the encoded statement.
  abbrev pub IsSignedBy : PublicKey → Bytes → Bytes → Slice → Type 0
  IsSignedBy key domain statement signature =
      IsWithin 8 72 (contents signature)
      × (verify_asn1 key (domain_separated_digest crypto domain statement) signature ≡ true)

  -- What a proposal and an acceptance are hashed from.
  pub proposal_digest_ok :
      (p : EndorsementProposal PublicKey) (a b : PublicKey) (d : Bytes)
      → p.proposer_public_key ≡ some a
      → p.subject_public_key ≡ some b
      → proposal_digest crypto p ≡ ok d
      → (x : Bytes) × (y : Bytes) × (statement : Bytes) × (public_key_bytes a ≡ some x)
        × (public_key_bytes b ≡ some y)
        × (proposal_statement.marshal (record {
          version = 1;
          proposer_public_key = some x;
          subject_public_key = some y;
          topic = p.topic;
          claim_body_bytes = p.claim_body_bytes;
          proposed_at_unix_ms = p.proposed_at_unix_ms;
        })
            ≡ some statement)
        × (d ≡ domain_separated_digest crypto domain_proposer_endorsement_v1 statement)
  unfolding proposal_digest encode_public_key
  proposal_digest_ok p a b d e f h =
      let (x, xe) = held (public_key_bytes a) (λ n. ground (arith, e)) in
      let (y, ye) = held (public_key_bytes b) (λ n. ground (arith, e, f, xe)) in
      let (s, se) =
        held
          (proposal_statement.marshal (record {
            version = 1;
            proposer_public_key = some x;
            subject_public_key = some y;
            topic = p.topic;
            claim_body_bytes = p.claim_body_bytes;
            proposed_at_unix_ms = p.proposed_at_unix_ms;
          }))
          (λ n. ground (arith, e, f, xe, ye)) in
      (x, y, s, xe, ye, se, ground (arith, e, f, xe, ye, se))

  pub acceptance_digest_ok :
      (a : EndorsementAcceptance) (d : Bytes)
      → acceptance_digest crypto a ≡ ok d
      → (statement : Bytes) × (acceptance_statement.marshal (record {
        version = 1;
        proposal_digest = some a.proposal_digest;
        accepted_at_unix_ms = a.accepted_at_unix_ms;
      })
          ≡ some statement)
        × (d ≡ domain_separated_digest crypto domain_subject_acceptance_v1 statement)
  unfolding acceptance_digest
  acceptance_digest_ok a d h =
      let (s, se) =
        held
          (acceptance_statement.marshal (record {
            version = 1;
            proposal_digest = some a.proposal_digest;
            accepted_at_unix_ms = a.accepted_at_unix_ms;
          }))
          (λ n. ground arith) in
      (s, se, ground (arith, se))

  pub proposal_signature_ok :
      (p : EndorsementProposal PublicKey) (a : PublicKey) (signature : Slice) (d : Bytes)
      → p.proposer_public_key ≡ some a
      → proposal_digest crypto p ≡ ok d
      → verify_proposal_signature crypto p signature ≡ ok tt
      → IsWithin 8 72 (contents signature) × (verify_asn1 a d signature ≡ true)
  unfolding verify_proposal_signature verified
  proposal_signature_ok p a signature d e h v = ground arith

  pub acceptance_signature_ok :
      (p : EndorsementAcceptance) (key : Option PublicKey) (a : PublicKey) (signature : Slice)
      → key ≡ some a
      → verify_acceptance_signature crypto p key signature ≡ ok tt
      → (d : Bytes) × (acceptance_digest crypto p ≡ ok d)
        × (IsWithin 8 72 (contents signature) × (verify_asn1 a d signature ≡ true))
  unfolding verify_acceptance_signature verified
  acceptance_signature_ok p key a signature e v = elim (Result-cases (acceptance_digest crypto p)) [
    | inr (x, bad) ↦ absurd (ground arith)
    | inl (d, fine) ↦ (d, fine, ground arith)
  ]
