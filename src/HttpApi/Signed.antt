-- ===== src/HttpApi/Signed.antt =====
-- What AcceptEndorsement and RevokeEndorsement answer.
use chain_application.Prelude.{◌≡◌, ◌⊎◌, inl, inr, refl, Bytes, Option, some, Result, ok, err}
use chain_application.Ledger.Constants.{
  event_kind_endorsement_accepted, event_kind_endorsement_revoked,
}
use chain_application.Ledger.Wires.{Libraries}
use chain_application.Ledger.Record.{StructuralRecord}
use chain_application.Endorsement.Wires.{Crypto}
use chain_application.Endorsement.Payloads.{
  EndorsementAcceptedPayload, EndorsementRevokedPayload, encode_accepted_payload,
  encode_revoked_payload,
}
use chain_application.Endorsement.Verification.{IsSigned}
use chain_application.Endorsement.Revocations.{IsRevocationSigned}
use chain_application.Admission.{Environment, Admitted, admit_endorsement, admit_revocation}
use chain_application.Admission.Stored.{IsAdmitted}
use chain_application.Admission.Payloads.{
  request_of, admit_endorsement-IsSigned, admit_revocation-IsRevocationSigned,
}
use chain_application.HttpApi.{
  Refusal, Response, Server, parse_hex32, success, refused, not_admitted,
}
use chain_application.HttpApi.Endorsements.{
  AcceptEndorsementRequest, RevokeEndorsementRequest, AdmitResponse, admit_response, accepted_of,
  revoked_of, parsed_request, answered, with_parsed, accept_endorsement, revoke_endorsement,
}
use chain_application.HttpApi.Requests.{
  parsed_request-ok, IsRead, accepted_of-IsRead, IsRevocationRead, revoked_of-IsRevocationRead,
}

module _ (crypto : Crypto) (server : Server) (libraries : Libraries)
    (environment : Environment) where
  open crypto use {PublicKey}
  open environment use {database}
  open database use {World}

  -- A request that was read, an endorsement signed by both parties and a record of it in the ledger.
  abbrev pub IsEndorsed : Bytes → Option AcceptEndorsementRequest → Response AdmitResponse → Type 0
  IsEndorsed ledger_id body answer =
      (id : Bytes) × (request : AcceptEndorsementRequest) × (p : EndorsementAcceptedPayload
        PublicKey)
      × (b : Bytes) × (r : StructuralRecord) × (parse_hex32 ledger_id ≡ some id)
      × (body ≡ some request)
      × IsRead crypto request p
      × IsSigned crypto p
      × (encode_accepted_payload crypto p ≡ ok b)
      × IsAdmitted libraries environment (request_of id event_kind_endorsement_accepted b) r
      × (answer ≡ success 201 (admit_response id r))

  abbrev pub IsRefused : Response AdmitResponse → Type 0
  IsRefused answer = (reason : Refusal) × (answer ≡ refused 400 reason)

  abbrev pub IsRevoked : Bytes → Option RevokeEndorsementRequest → Response AdmitResponse → Type 0
  IsRevoked ledger_id body answer =
      (id : Bytes) × (request : RevokeEndorsementRequest) × (p : EndorsementRevokedPayload
        PublicKey)
      × (b : Bytes) × (r : StructuralRecord) × (parse_hex32 ledger_id ≡ some id)
      × (body ≡ some request)
      × IsRevocationRead crypto request p
      × IsRevocationSigned crypto p
      × (encode_revoked_payload crypto p ≡ ok b)
      × IsAdmitted libraries environment (request_of id event_kind_endorsement_revoked b) r
      × (answer ≡ success 201 (admit_response id r))

  -- What is answered to an admission.
  abbrev IsAnswered : Bytes → Admitted libraries environment → Response AdmitResponse → Type 0
  IsAnswered id admitted answer =
      IsRefused answer
      ⊎ ((r : StructuralRecord) × (admitted.1 ≡ ok r)
          × (answer ≡ success 201 (admit_response id r)))

  answered-cases :
      (id : Bytes) (admitted : Admitted libraries environment)
      → IsAnswered id admitted (answered crypto server libraries environment id admitted).1
  answered-cases id (world, ok r) = inr (r, refl, refl)
  answered-cases id (world, err e) = inl (not_admitted e, refl)

  parsed_endorsement_cases :
      (ledger_id : Bytes) (body : Option AcceptEndorsementRequest) (world : World) (id : Bytes)
      (p : EndorsementAcceptedPayload PublicKey) (answer : Response AdmitResponse)
      → parsed_request server (accepted_of crypto) (parse_hex32 ledger_id) body ≡ ok (id, p)
      → IsAnswered id
          (admit_endorsement libraries environment crypto server.max_retries id (some p) world)
          answer
      → IsRefused answer ⊎ IsEndorsed ledger_id body answer
  parsed_endorsement_cases ledger_id body world id p answer h (inl refusal) = inl refusal
  parsed_endorsement_cases ledger_id body world id p answer h (inr (r, admitted, same)) =
      let (i, (request, present, read)) =
        parsed_request-ok server (accepted_of crypto) (parse_hex32 ledger_id) body id p h in
      let (signed, (b, encoded, stored)) =
        admit_endorsement-IsSigned libraries environment crypto server.max_retries id p world r
          admitted in
      inr (
        id,
        request,
        p,
        b,
        r,
        i,
        present,
        accepted_of-IsRead crypto request p read,
        signed,
        encoded,
        stored,
        same,
      )

  -- AcceptEndorsement answers every request: with status 400, or with status 201 and the record in the
  -- ledger that was asked for of the endorsement that the request spells, signed by both parties.
  pub accept_endorsement-cases :
      (ledger_id : Bytes) (body : Option AcceptEndorsementRequest) (world : World)
      → IsRefused (accept_endorsement crypto server libraries environment ledger_id body world).1
        ⊎ IsEndorsed ledger_id body
            (accept_endorsement crypto server libraries environment ledger_id body world).1
  unfolding accept_endorsement
  accept_endorsement-cases ledger_id body world =
      by_parsed (parsed_request server (accepted_of crypto) (parse_hex32 ledger_id) body) refl
    where
      by_parsed :
          (parsed : Result Refusal (Bytes × EndorsementAcceptedPayload PublicKey))
          → parsed_request server (accepted_of crypto) (parse_hex32 ledger_id) body ≡ parsed
          → IsRefused
              (with_parsed crypto server libraries environment world
                (λ p. answered crypto server libraries environment p.0 (
                  admit_endorsement libraries environment crypto server.max_retries p.0
                    (some p.1)
                    world))
                parsed).1
            ⊎ IsEndorsed ledger_id body
                (with_parsed crypto server libraries environment world
                  (λ p. answered crypto server libraries environment p.0 (
                    admit_endorsement libraries environment crypto server.max_retries p.0
                      (some p.1)
                      world))
                  parsed).1
      by_parsed (err e) f = inl (e, refl)
      by_parsed (ok (id, p)) f = parsed_endorsement_cases ledger_id body world id p _ f (
          answered-cases id
            (admit_endorsement libraries environment crypto server.max_retries id (some p) world))

  parsed_revocation_cases :
      (ledger_id : Bytes) (body : Option RevokeEndorsementRequest) (world : World) (id : Bytes)
      (p : EndorsementRevokedPayload PublicKey) (answer : Response AdmitResponse)
      → parsed_request server (revoked_of crypto) (parse_hex32 ledger_id) body ≡ ok (id, p)
      → IsAnswered id
          (admit_revocation libraries environment crypto server.max_retries id (some p) world)
          answer
      → IsRefused answer ⊎ IsRevoked ledger_id body answer
  parsed_revocation_cases ledger_id body world id p answer h (inl refusal) = inl refusal
  parsed_revocation_cases ledger_id body world id p answer h (inr (r, admitted, same)) =
      let (i, (request, present, read)) =
        parsed_request-ok server (revoked_of crypto) (parse_hex32 ledger_id) body id p h in
      let (signed, (b, encoded, stored)) =
        admit_revocation-IsRevocationSigned libraries environment crypto server.max_retries id p
          world r admitted in
      inr (
        id,
        request,
        p,
        b,
        r,
        i,
        present,
        revoked_of-IsRevocationRead crypto request p read,
        signed,
        encoded,
        stored,
        same,
      )

  -- RevokeEndorsement answers every request: with status 400, or with status 201 and the record in the
  -- ledger that was asked for of the revocation that the request spells, signed by its revoker.
  pub revoke_endorsement-cases :
      (ledger_id : Bytes) (body : Option RevokeEndorsementRequest) (world : World)
      → IsRefused (revoke_endorsement crypto server libraries environment ledger_id body world).1
        ⊎ IsRevoked ledger_id body
            (revoke_endorsement crypto server libraries environment ledger_id body world).1
  unfolding revoke_endorsement
  revoke_endorsement-cases ledger_id body world =
      by_parsed (parsed_request server (revoked_of crypto) (parse_hex32 ledger_id) body) refl
    where
      by_parsed :
          (parsed : Result Refusal (Bytes × EndorsementRevokedPayload PublicKey))
          → parsed_request server (revoked_of crypto) (parse_hex32 ledger_id) body ≡ parsed
          → IsRefused
              (with_parsed crypto server libraries environment world
                (λ p. answered crypto server libraries environment p.0 (
                  admit_revocation libraries environment crypto server.max_retries p.0
                    (some p.1)
                    world))
                parsed).1
            ⊎ IsRevoked ledger_id body
                (with_parsed crypto server libraries environment world
                  (λ p. answered crypto server libraries environment p.0 (
                    admit_revocation libraries environment crypto server.max_retries p.0
                      (some p.1)
                      world))
                  parsed).1
      by_parsed (err e) f = inl (e, refl)
      by_parsed (ok (id, p)) f = parsed_revocation_cases ledger_id body world id p _ f (
          answered-cases id
            (admit_revocation libraries environment crypto server.max_retries id (some p) world))
