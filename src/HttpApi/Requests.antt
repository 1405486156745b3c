-- ===== src/HttpApi/Requests.antt =====
-- What AcceptEndorsement and RevokeEndorsement read of their requests.
use chain_application.Prelude.{
  ◌≡◌, inl, inr, refl, ap, sym, arith, Bytes, Slice, Option, none, some, Result, ok, err,
  Result-cases, map_err, decode_hex, to_uint64,
}
use chain_application.Endorsement.Wires.{Crypto}
use chain_application.Endorsement.Payloads.{
  EndorsementAcceptedPayload, EndorsementRevokedPayload, new_accepted_payload, new_revoked_payload,
}
use chain_application.HttpApi.{Refusal, Server, parse_hex32, parse_hex_public_key, invalid_payload}
use chain_application.HttpApi.Endorsements.{
  AcceptEndorsementRequest, RevokeEndorsementRequest, accepted_from, accepted_of, revoked_from,
  revoked_of, reason_of, parsed_request,
}

-- What the handlers of an endorsement and of a revocation read of their requests.
pub parsed_request-ok :
    {B P : Type 0} (server : Server) (payload_of : B → Result Refusal P) (ledger_id : Option Bytes)
    (body : Option B) (id : Bytes) (p : P)
    → parsed_request server payload_of ledger_id body ≡ ok (id, p)
    → (ledger_id ≡ some id) × ((b : B) × (body ≡ some b) × (payload_of b ≡ ok p))
unfolding parsed_request
parsed_request-ok server payload_of none body id p h = absurd (ground (arith, h))
parsed_request-ok server payload_of (some i) none id p h = absurd (ground (arith, h))
parsed_request-ok server payload_of (some i) (some b) id p h = elim (Result-cases (payload_of b)) [
  | inr (e, f) ↦ absurd (ground (arith, rw f at h))
  | inl (q, f) ↦ (ground (arith, rw f at h), (b, refl, ground (arith, f, rw f at h)))
]

unwrapped :
    {E F A : Type 0} (wrap : E → F) (r : Result E A) (a : A) → map_err wrap r ≡ ok a → r ≡ ok a
unwrapped wrap (ok b) a h = ground (arith, h)
unwrapped wrap (err e) a h = absurd (ground (arith, h))

module _ (crypto : Crypto) where
  open crypto use {PublicKey}

  -- The payload that the texts of a request stand for.
  pub record IsRead (body : AcceptEndorsementRequest) (p : EndorsementAcceptedPayload PublicKey)
      : Type 0 where
    pub proposer : p.proposer_public_key ≡ parse_hex_public_key crypto body.proposer_public_key_hex
    pub subject : p.subject_public_key ≡ parse_hex_public_key crypto body.subject_public_key_hex
    pub topic : p.topic ≡ body.topic
    pub claim : p.claim_body_bytes ≡ decode_hex body.claim_body_hex
    pub proposed : p.proposed_at_unix_ms ≡ to_uint64 body.proposed_at_unix_ms
    pub proposer_signature : p.proposer_signature ≡ decode_hex body.proposer_signature_hex
    pub accepted : p.accepted_at_unix_ms ≡ to_uint64 body.accepted_at_unix_ms
    pub subject_signature : p.subject_signature ≡ decode_hex body.subject_signature_hex

  built : (p q : EndorsementAcceptedPayload PublicKey) → new_accepted_payload p ≡ ok q → p ≡ q
  unfolding new_accepted_payload
  built p q h = ground (arith, h)

  accepted_from-eq :
      (body : AcceptEndorsementRequest) (first second : Option PublicKey) (claim one two : Slice)
      (p : EndorsementAcceptedPayload PublicKey)
      → accepted_from crypto body first second claim one two ≡ ok p
      → p ≡ record {
        proposer_public_key = first;
        subject_public_key = second;
        topic = body.topic;
        claim_body_bytes = claim;
        proposed_at_unix_ms = to_uint64 body.proposed_at_unix_ms;
        proposer_signature = one;
        accepted_at_unix_ms = to_uint64 body.accepted_at_unix_ms;
        subject_signature = two;
      }
  unfolding accepted_from
  accepted_from-eq body none second claim one two p h = absurd (ground (arith, h))
  accepted_from-eq body (some a) none claim one two p h = absurd (ground (arith, h))
  accepted_from-eq body (some a) (some b) none one two p h = absurd (ground (arith, h))
  accepted_from-eq body (some a) (some b) (some c) none two p h = absurd (ground (arith, h))
  accepted_from-eq body (some a) (some b) (some c) (some d) none p h = absurd (ground (arith, h))
  accepted_from-eq body (some a) (some b) (some c) (some d) (some e) p h =
      sym (built _ p (unwrapped invalid_payload _ p h))

  pub accepted_of-IsRead :
      (body : AcceptEndorsementRequest) (p : EndorsementAcceptedPayload PublicKey)
      → accepted_of crypto body ≡ ok p
      → IsRead body p
  accepted_of-IsRead body p h =
      let e =
        accepted_from-eq body (parse_hex_public_key crypto body.proposer_public_key_hex)
          (parse_hex_public_key crypto body.subject_public_key_hex) (decode_hex body.claim_body_hex)
          (decode_hex body.proposer_signature_hex) (decode_hex body.subject_signature_hex) p h in
      record {
        proposer = ap (λ q. q.proposer_public_key) e;
        subject = ap (λ q. q.subject_public_key) e;
        topic = ap (λ q. q.topic) e;
        claim = ap (λ q. q.claim_body_bytes) e;
        proposed = ap (λ q. q.proposed_at_unix_ms) e;
        proposer_signature = ap (λ q. q.proposer_signature) e;
        accepted = ap (λ q. q.accepted_at_unix_ms) e;
        subject_signature = ap (λ q. q.subject_signature) e;
      }

  -- The same of a revocation.
  pub record IsRevocationRead (body : RevokeEndorsementRequest)
      (p : EndorsementRevokedPayload PublicKey) : Type 0 where
    pub target : some p.target_record_digest ≡ parse_hex32 body.target_record_digest
    pub revoker : p.revoker_public_key ≡ parse_hex_public_key crypto body.revoker_public_key_hex
    pub role : p.role ≡ to_uint64 body.role
    pub revoked : p.revoked_at_unix_ms ≡ to_uint64 body.revoked_at_unix_ms
    pub reason : p.reason ≡ reason_of body.reason
    pub signature : p.revoker_signature ≡ decode_hex body.revoker_signature_hex

  built_revocation :
      (p q : EndorsementRevokedPayload PublicKey) → new_revoked_payload p ≡ ok q → p ≡ q
  unfolding new_revoked_payload
  built_revocation p q h = ground (arith, h)

  revoked_from-eq :
      (body : RevokeEndorsementRequest) (target : Option Bytes) (revoker : Option PublicKey)
      (signature : Slice) (p : EndorsementRevokedPayload PublicKey)
      → revoked_from crypto body target revoker signature ≡ ok p
      → (target ≡ some p.target_record_digest)
        × (p ≡ record {
          target_record_digest = p.target_record_digest;
          revoker_public_key = revoker;
          role = to_uint64 body.role;
          revoked_at_unix_ms = to_uint64 body.revoked_at_unix_ms;
          reason = reason_of body.reason;
          revoker_signature = signature;
        })
  unfolding revoked_from
  revoked_from-eq body none revoker signature p h = absurd (ground (arith, h))
  revoked_from-eq body (some t) none signature p h = absurd (ground (arith, h))
  revoked_from-eq body (some t) (some k) none p h = absurd (ground (arith, h))
  revoked_from-eq body (some t) (some k) (some s) p h =
      let e = sym (built_revocation _ p (unwrapped invalid_payload _ p h)) in
      (ap (λ q. some q.target_record_digest) (sym e), ground (arith, e))

  pub revoked_of-IsRevocationRead :
      (body : RevokeEndorsementRequest) (p : EndorsementRevokedPayload PublicKey)
      → revoked_of crypto body ≡ ok p
      → IsRevocationRead body p
  revoked_of-IsRevocationRead body p h =
      let (t, e) =
        revoked_from-eq body (parse_hex32 body.target_record_digest)
          (parse_hex_public_key crypto body.revoker_public_key_hex)
          (decode_hex body.revoker_signature_hex) p h in
      record {
        target = sym t;
        revoker = ap (λ q. q.revoker_public_key) e;
        role = ap (λ q. q.role) e;
        revoked = ap (λ q. q.revoked_at_unix_ms) e;
        reason = ap (λ q. q.reason) e;
        signature = ap (λ q. q.revoker_signature) e;
      }
