-- ===== src/Endorsement/Revocations.antt =====
-- What it takes for the signature of a revocation payload to be accepted.
use chain_application.Prelude.{
  held, Bytes, Slice, contents, ◌≡◌, ◌≢◌, ◌↔◌, ◌⊎◌, subst, arith, ◌≤◌, length, true, none, some, ok,
  Result-cases, inl, inr,
}
use chain_application.Endorsement.Wires.{
  Crypto, domain_revocation_v1, revoker_role_proposer, revoker_role_subject,
}
use chain_application.Endorsement.Statements.{
  EndorsementRevocation, new_revocation, domain_separated_digest, encode_public_key,
  revocation_digest, verified, verify_revocation_signature,
}
use chain_application.Endorsement.Payloads.{EndorsementRevokedPayload, verify_revoked_payload}
use chain_application.Endorsement.Signatures.{IsSignedBy}

module _ (crypto : Crypto) where
  open crypto use {PublicKey, public_key_bytes, verify_asn1, revocation_statement}

  -- The revoker has signed the revocation.
  pub record IsRevocationSigned (r : EndorsementRevokedPayload PublicKey) : Type 0 where
    pub revoker : PublicKey
    pub revoker_bytes : Bytes
    pub statement : Bytes
    pub has_revoker : r.revoker_public_key ≡ some revoker
    pub known_role : (r.role ≡ revoker_role_proposer) ⊎ (r.role ≡ revoker_role_subject)
    pub reason_fits : length r.reason ≤ 256
    pub revoker_encoded : public_key_bytes revoker ≡ some revoker_bytes
    pub stated :
        revocation_statement.marshal (record {
          version = 1;
          target_record_digest = some r.target_record_digest;
          revoker_public_key = some revoker_bytes;
          role = r.role;
          revoked_at_unix_ms = r.revoked_at_unix_ms;
          reason = r.reason;
        })
        ≡ some statement
    pub revoker_signed :
        IsSignedBy crypto revoker domain_revocation_v1 statement r.revoker_signature

  abbrev revocation_of : EndorsementRevokedPayload PublicKey → EndorsementRevocation PublicKey
  revocation_of r = record {
    target_record_digest = r.target_record_digest;
    revoker_public_key = r.revoker_public_key;
    role = r.role;
    revoked_at_unix_ms = r.revoked_at_unix_ms;
    reason = r.reason;
  }

  record IsRevocationChecked (r : EndorsementRevokedPayload PublicKey) : Type 0 where
    key : r.revoker_public_key ≢ none
    role : (r.role ≡ revoker_role_proposer) ⊎ (r.role ≡ revoker_role_subject)
    reason : length r.reason ≤ 256
    checked : verify_revocation_signature crypto (revocation_of r) r.revoker_signature ≡ ok tt

  verify→IsRevocationChecked :
      (r : EndorsementRevokedPayload PublicKey)
      → verify_revoked_payload crypto r ≡ ok tt
      → IsRevocationChecked r
  unfolding verify_revoked_payload new_revocation
  verify→IsRevocationChecked r h = record {
    key = ground arith;
    role = ground arith;
    reason = ground arith;
    checked = ground arith;
  }

  revocation_digest_ok :
      (r : EndorsementRevocation PublicKey) (a : PublicKey) (d : Bytes)
      → r.revoker_public_key ≡ some a
      → revocation_digest crypto r ≡ ok d
      → (x : Bytes) × (statement : Bytes) × (public_key_bytes a ≡ some x)
        × (revocation_statement.marshal (record {
          version = 1;
          target_record_digest = some r.target_record_digest;
          revoker_public_key = some x;
          role = r.role;
          revoked_at_unix_ms = r.revoked_at_unix_ms;
          reason = r.reason;
        })
            ≡ some statement)
        × (d ≡ domain_separated_digest crypto domain_revocation_v1 statement)
  unfolding revocation_digest encode_public_key
  revocation_digest_ok r a d e h =
      let (x, xe) = held (public_key_bytes a) (λ n. ground (arith, e)) in
      let (s, se) =
        held
          (revocation_statement.marshal (record {
            version = 1;
            target_record_digest = some r.target_record_digest;
            revoker_public_key = some x;
            role = r.role;
            revoked_at_unix_ms = r.revoked_at_unix_ms;
            reason = r.reason;
          }))
          (λ n. ground (arith, e, xe)) in
      (x, s, xe, se, ground (arith, e, xe, se))

  revocation_signature_ok :
      (r : EndorsementRevocation PublicKey) (a : PublicKey) (signature : Slice)
      → r.revoker_public_key ≡ some a
      → verify_revocation_signature crypto r signature ≡ ok tt
      → (d : Bytes) × (revocation_digest crypto r ≡ ok d)
        × (((8 ≤ length (contents signature)) × (length (contents signature) ≤ 72))
            × (verify_asn1 a d signature ≡ true))
  unfolding verify_revocation_signature verified
  revocation_signature_ok r a signature e v = elim (Result-cases (revocation_digest crypto r)) [
    | inr (x, bad) ↦ absurd (ground arith)
    | inl (d, fine) ↦ (d, fine, ground arith)
  ]

  IsRevocationChecked→IsRevocationSigned :
      (r : EndorsementRevokedPayload PublicKey) → IsRevocationChecked r → IsRevocationSigned r
  IsRevocationChecked→IsRevocationSigned r c =
      let (a, e) = held r.revoker_public_key c.key in
      let (d, dd, ds) =
        revocation_signature_ok (revocation_of r) a r.revoker_signature e c.checked in
      let (x, s, xe, se, de) = revocation_digest_ok (revocation_of r) a d e dd in
      record {
        revoker = a;
        revoker_bytes = x;
        statement = s;
        has_revoker = e;
        known_role = c.role;
        reason_fits = c.reason;
        revoker_encoded = xe;
        stated = se;
        revoker_signed =
            subst
              (λ z.
                ((8 ≤ length (contents r.revoker_signature))
                  × (length (contents r.revoker_signature) ≤ 72))
                × (verify_asn1 a z r.revoker_signature ≡ true))
              de ds;
      }

  IsRevocationSigned→verify :
      (r : EndorsementRevokedPayload PublicKey)
      → IsRevocationSigned r
      → verify_revoked_payload crypto r ≡ ok tt
  unfolding verify_revoked_payload new_revocation encode_public_key revocation_digest verified
      verify_revocation_signature
  IsRevocationSigned→verify r s = ground (
    arith, s.has_revoker, s.known_role, s.reason_fits, s.revoker_encoded, s.stated,
    s.revoker_signed,
  )

  -- A revocation passes verification exactly when its role is one of the two, its reason is short
  -- enough, and its revoker has signed the encoded revocation under the revocation domain.
  pub verify_revoked_payload_iff :
      (r : EndorsementRevokedPayload PublicKey)
      → (verify_revoked_payload crypto r ≡ ok tt) ↔ IsRevocationSigned r
  verify_revoked_payload_iff r = (
    λ h. IsRevocationChecked→IsRevocationSigned r (verify→IsRevocationChecked r h),
    IsRevocationSigned→verify r,
  )
