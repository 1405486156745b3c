-- ===== src/Admission/Payloads.antt =====
-- What an admitted endorsement or revocation has been checked for.
use chain_application.Prelude.{ℕ, ◌≡◌, refl, arith, Bytes, some, Result, ok, err, ◌>>=◌}
use chain_application.Ledger.Constants.{
  event_kind_endorsement_accepted, event_kind_endorsement_revoked,
}
use chain_application.Ledger.Wires.{Libraries}
use chain_application.Ledger.Record.{StructuralRecord}
use chain_application.Endorsement.Wires.{Crypto, PayloadError, payload_version_v1}
use chain_application.Endorsement.Payloads.{
  EndorsementAcceptedPayload, EndorsementRevokedPayload, verify_accepted_payload,
  verify_revoked_payload, encode_accepted_payload, encode_revoked_payload,
}
use chain_application.Endorsement.Verification.{IsSigned, verify_accepted_payload_iff}
use chain_application.Endorsement.Revocations.{IsRevocationSigned, verify_revoked_payload_iff}
use chain_application.Admission.{
  Environment, AdmitRequest, admit_encoded, admit_endorsement, admit_revocation,
}
use chain_application.Admission.Stored.{IsAdmitted, admit-IsAdmitted}

abbrev pub request_of : Bytes → ℕ → Bytes → AdmitRequest
request_of ledger_id kind encoded = record {
  ledger_id = ledger_id;
  event_kind = kind;
  payload_version = payload_version_v1;
  payload_bytes = some encoded;
}

-- A check and then an encoding that succeed have both succeeded.
both_ok :
    (checked : Result PayloadError (Unit {0})) (encoded : Result PayloadError Bytes) (b : Bytes)
    → (checked >>= λ u. encoded) ≡ ok b
    → (checked ≡ ok tt) × (encoded ≡ ok b)
both_ok (ok u) encoded b h = (refl, h)
both_ok (err e) encoded b h = absurd (ground arith)

module _ (libraries : Libraries) (environment : Environment) (crypto : Crypto) where
  open crypto use {PublicKey}

  abbrev World : Type 0
  World = environment.database.World

  encoded-IsAdmitted :
      (max_retries : ℕ) (ledger_id : Bytes) (kind : ℕ) (encoded : Result PayloadError Bytes)
      (world : World) (r : StructuralRecord)
      → (admit_encoded libraries environment max_retries ledger_id kind encoded world).1 ≡ ok r
      → (b : Bytes) × (encoded ≡ ok b)
        × IsAdmitted libraries environment (request_of ledger_id kind b) r
  encoded-IsAdmitted max_retries ledger_id kind (err e) world r h = absurd (ground arith)
  encoded-IsAdmitted max_retries ledger_id kind (ok b) world r h = (
    b,
    refl,
    admit-IsAdmitted libraries environment max_retries (request_of ledger_id kind b) world r h,
  )

  -- An endorsement that is admitted is signed by both of its parties, and its record was built for its
  -- encoded form.
  pub admit_endorsement-IsSigned :
      (max_retries : ℕ) (ledger_id : Bytes) (p : EndorsementAcceptedPayload PublicKey)
      (world : World) (r : StructuralRecord)
      → (admit_endorsement libraries environment crypto max_retries ledger_id (some p) world).1
        ≡ ok r
      → IsSigned crypto p
        × ((b : Bytes) × (encode_accepted_payload crypto p ≡ ok b)
            × IsAdmitted libraries environment
                (request_of ledger_id event_kind_endorsement_accepted b)
                r)
  unfolding admit_endorsement
  admit_endorsement-IsSigned max_retries ledger_id p world r h =
      let (b, e, admitted) =
        encoded-IsAdmitted max_retries ledger_id event_kind_endorsement_accepted
          (verify_accepted_payload crypto p >>= λ u. encode_accepted_payload crypto p) world r h in
      let (checked, encoded) =
        both_ok (verify_accepted_payload crypto p) (encode_accepted_payload crypto p) b e in
      ((verify_accepted_payload_iff crypto p).0 checked, (b, encoded, admitted))

  -- A revocation that is admitted is signed by its revoker, and its record was built for its encoded
  -- form.
  pub admit_revocation-IsRevocationSigned :
      (max_retries : ℕ) (ledger_id : Bytes) (p : EndorsementRevokedPayload PublicKey)
      (world : World) (r : StructuralRecord)
      → (admit_revocation libraries environment crypto max_retries ledger_id (some p) world).1
        ≡ ok r
      → IsRevocationSigned crypto p
        × ((b : Bytes) × (encode_revoked_payload crypto p ≡ ok b)
            × IsAdmitted libraries environment
                (request_of ledger_id event_kind_endorsement_revoked b)
                r)
  unfolding admit_revocation
  admit_revocation-IsRevocationSigned max_retries ledger_id p world r h =
      let (b, e, admitted) =
        encoded-IsAdmitted max_retries ledger_id event_kind_endorsement_revoked
          (verify_revoked_payload crypto p >>= λ u. encode_revoked_payload crypto p) world r h in
      let (checked, encoded) =
        both_ok (verify_revoked_payload crypto p) (encode_revoked_payload crypto p) b e in
      ((verify_revoked_payload_iff crypto p).0 checked, (b, encoded, admitted))
