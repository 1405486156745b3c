-- ===== src/HttpApi.antt =====
-- internal/httpapi/server.go: what the handlers share. A request is what the generated binding has
-- decoded, a string a list of bytes; a response is its status and its body, and an error that a
-- handler returns is answered with status 500. The text of a refusal is its reason.
pub mod Ledgers
pub mod Endorsements
pub mod Requests
pub mod Signed
pub mod Confidence
pub mod Explained
use chain_application.Prelude.{
  ℕ, Bytes, Bool, Option, none, some, Result, ok, err, ◌==◌, length, copy, replicate, decode_hex,
  encode_hex, ℤ, if◌then◌else◌,
}
use chain_application.Endorsement.Wires.{PayloadError, Crypto}
use chain_application.LedgerStore.{StoreError}
use chain_application.Admission.{AdmissionError}
use chain_application.Graph.Policy.{PolicyError}
use chain_application.Graph.Identity.{IdentityError}
use chain_application.Graph.Projector.Stored.{ReplayError}

pub data Refusal : Type 0 where
  admission_unavailable store_unavailable invalid_ledger_id invalid_record_digest : Refusal
  already_initialized uninitialized_ledger unknown_record missing_body : Refusal
  invalid_proposer_public_key invalid_subject_public_key invalid_claim_body : Refusal
  invalid_proposer_signature invalid_subject_signature invalid_target : Refusal
  invalid_revoker_public_key invalid_revoker_signature : Refusal
  invalid_payload : PayloadError → Refusal
  not_admitted : AdmissionError → Refusal
  invalid_target_key : IdentityError → Refusal
  invalid_trust_root : Bytes → IdentityError → Refusal
  invalid_policy : PolicyError → Refusal

-- An error that a handler returns.
pub data ServerError : Type 0 where
  admission_error : AdmissionError → ServerError
  store_error : StoreError → ServerError
  replay_error : ReplayError → ServerError

pub data Response (A : Type 0) : Type 0 where
  success : ℕ → A → Response A
  refused : ℕ → Refusal → Response A
  failed : ServerError → Response A

-- The status that the client sees.
abbrev pub status_of : {A : Type 0} → Response A → ℕ
status_of (success status a) = status
status_of (refused status r) = status
status_of (failed e) = 500

-- Whether the pointers of `Server` are there, and the retries that the admission service is set to.
pub record Server : Type 0 where
  pub has_admission : Bool
  pub has_store : Bool
  pub max_retries : ℕ

-- `if err != nil { return … 400 }`, for a parser.
abbrev pub or_refuse {ℓ} : {A : Type ℓ} → Refusal → Option A → Result Refusal A
or_refuse r none = err r
or_refuse r (some a) = ok a

abbrev pub exactly_32 : Option Bytes → Option Bytes
exactly_32 none = none
exactly_32 (some b) = if length b == 32 then some (copy (replicate 32 0) b) else none

unfoldable pub parse_hex32 : Bytes → Option Bytes
parse_hex32 s = exactly_32 (decode_hex s)

unfoldable pub parse_hex_public_key : (crypto : Crypto) → Bytes → Option crypto.PublicKey
parse_hex_public_key crypto s = elim (decode_hex s) [
  | none ↦ none
  | some b ↦ crypto.parse_public_key b
]
