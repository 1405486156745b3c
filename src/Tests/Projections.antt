-- ===== src/Tests/Projections.antt =====
-- An endorsement and a revocation, signed, encoded and projected, and the theorems at them.
use chain_application.Prelude.{
  ℕ, ◌≡◌, ◌≢◌, ◌⊎◌, ◌↔◌, refl, arith, Bytes, List, [], ◌∷◌, true, some, none, ok, replicate, ascii,
  contents, bytes_equal, lookup, insert, update, copy,
}
use chain_application.Ledger.Record.{StructuralRecord}
use chain_application.Endorsement.Wires.{
  domain_proposer_endorsement_v1, domain_subject_acceptance_v1, domain_revocation_v1,
}
use chain_application.Endorsement.Statements.{
  new_proposal, domain_separated_digest, encode_public_key, proposal_digest, acceptance_digest,
  revocation_digest, verified, verify_proposal_signature, verify_acceptance_signature,
  verify_revocation_signature, new_revocation,
}
use chain_application.Endorsement.Payloads.{
  EndorsementAcceptedPayload, EndorsementRevokedPayload, new_accepted_payload, new_revoked_payload,
  encode_accepted_payload, encode_revoked_payload, decode_public_key, decode_accepted_payload,
  decode_revoked_payload, verify_accepted_payload, verify_revoked_payload,
}
use chain_application.Endorsement.Verification.{IsSigned, verify_accepted_payload_iff}
use chain_application.Endorsement.Revocations.{IsRevocationSigned, verify_revoked_payload_iff}
use chain_application.Endorsement.Roundtrips.{
  decode_accepted_payload-encode, decode_revoked_payload-encode,
}
use chain_application.Graph.Store.{
  Graph, edge_already_revoked, new_graph, add_edge, revoke_edge, find_edge, role_error,
  active_edge_count, count_active,
}
use chain_application.Graph.Store.Invariant.{IsIndexed, new_graph-IsIndexed}
use chain_application.Graph.Identity.{identity_key_from_bytes, identity_key_from_public_key}
use chain_application.Graph.Projector.{
  refused, continues, accepted_edge, revocation, project, apply_record, apply_records,
}
use chain_application.Graph.Projector.Steps.{IsNext, apply_record-cases}
use chain_application.Graph.Projector.Replay.{
  IsReplayed, apply_records-IsIndexed, apply_records-IsReplayed,
}
use chain_application.Tests.Encoding.{write, write_map, read, read_map}
use chain_application.Tests.Signing.{toy_crypto as toy, toy-IsReadable, is_ascii, sign}

-- What a run of the package and of the projector computes with.
unfoldable pub code : Unit {0}
unfolding write write_map read read_map bytes_equal lookup insert update copy new_proposal
    new_revocation domain_separated_digest encode_public_key proposal_digest acceptance_digest
    revocation_digest verified verify_proposal_signature verify_acceptance_signature
    verify_revocation_signature new_accepted_payload new_revoked_payload encode_accepted_payload
    encode_revoked_payload decode_public_key decode_accepted_payload decode_revoked_payload
    verify_accepted_payload verify_revoked_payload add_edge revoke_edge find_edge role_error
    active_edge_count count_active identity_key_from_bytes identity_key_from_public_key continues
    accepted_edge revocation project apply_record apply_records
code = tt

abbrev pub ann : Bytes
ann = 4 ∷ replicate 64 1

abbrev pub bob : Bytes
bob = 4 ∷ replicate 64 2

abbrev proposal_statement : Bytes
proposal_statement = contents (
    toy.proposal_statement.marshal (record {
      version = 1;
      proposer_public_key = some ann;
      subject_public_key = some bob;
      topic = ascii "go";
      claim_body_bytes = some (1 ∷ []);
      proposed_at_unix_ms = 5;
    }))

abbrev signed_proposal : Bytes
signed_proposal = domain_separated_digest toy domain_proposer_endorsement_v1 proposal_statement

abbrev signed_acceptance : Bytes
signed_acceptance = domain_separated_digest toy domain_subject_acceptance_v1 (
    contents (
      toy.acceptance_statement.marshal
        (record { version = 1; proposal_digest = some signed_proposal; accepted_at_unix_ms = 6 })))

abbrev pub endorsement : EndorsementAcceptedPayload Bytes
endorsement = record {
  proposer_public_key = some ann;
  subject_public_key = some bob;
  topic = ascii "go";
  claim_body_bytes = some (1 ∷ []);
  proposed_at_unix_ms = 5;
  proposer_signature = some (sign ann signed_proposal);
  accepted_at_unix_ms = 6;
  subject_signature = some (sign bob signed_acceptance);
}

abbrev endorsement_digest : Bytes
endorsement_digest = replicate 32 10

abbrev signed_revocation : Bytes
signed_revocation = domain_separated_digest toy domain_revocation_v1 (
    contents (
      toy.revocation_statement.marshal (record {
        version = 1;
        target_record_digest = some endorsement_digest;
        revoker_public_key = some bob;
        role = 2;
        revoked_at_unix_ms = 9;
        reason = ascii "left";
      })))

abbrev pub withdrawal : EndorsementRevokedPayload Bytes
withdrawal = record {
  target_record_digest = endorsement_digest;
  revoker_public_key = some bob;
  role = 2;
  revoked_at_unix_ms = 9;
  reason = ascii "left";
  revoker_signature = some (sign bob signed_revocation);
}

endorsement_verified : verify_accepted_payload toy endorsement ≡ ok tt
unfolding code
endorsement_verified = refl

verify_accepted_payload_iff_example :
    (verify_accepted_payload toy endorsement ≡ ok tt) ↔ IsSigned toy endorsement
verify_accepted_payload_iff_example = verify_accepted_payload_iff toy endorsement

withdrawal_verified : verify_revoked_payload toy withdrawal ≡ ok tt
unfolding code
withdrawal_verified = refl

verify_revoked_payload_iff_example :
    (verify_revoked_payload toy withdrawal ≡ ok tt) ↔ IsRevocationSigned toy withdrawal
verify_revoked_payload_iff_example = verify_revoked_payload_iff toy withdrawal

abbrev pub accepted_bytes : Bytes
accepted_bytes = contents (
    toy.accepted_payload.marshal (record {
      version = 1;
      proposer_public_key = some ann;
      subject_public_key = some bob;
      topic = ascii "go";
      claim_body_bytes = some (1 ∷ []);
      proposed_at_unix_ms = 5;
      proposer_signature = some (sign ann signed_proposal);
      accepted_at_unix_ms = 6;
      subject_signature = some (sign bob signed_acceptance);
    }))

abbrev pub revoked_bytes : Bytes
revoked_bytes = contents (
    toy.revoked_payload.marshal (record {
      version = 1;
      target_record_digest = some endorsement_digest;
      revoker_public_key = some bob;
      role = 2;
      revoked_at_unix_ms = 9;
      reason = ascii "left";
      revoker_signature = some (sign bob signed_revocation);
    }))

endorsement_constructed : new_accepted_payload endorsement ≡ ok endorsement
unfolding code
endorsement_constructed = refl

endorsement_encoded : encode_accepted_payload toy endorsement ≡ ok accepted_bytes
unfolding code
endorsement_encoded = refl

decode_accepted_payload-encode_example : decode_accepted_payload toy accepted_bytes ≡ ok endorsement
decode_accepted_payload-encode_example =
    decode_accepted_payload-encode toy is_ascii toy-IsReadable endorsement endorsement
      accepted_bytes refl endorsement_constructed endorsement_encoded

withdrawal_constructed : new_revoked_payload withdrawal ≡ ok withdrawal
unfolding code
withdrawal_constructed = refl

withdrawal_encoded : encode_revoked_payload toy withdrawal ≡ ok revoked_bytes
unfolding code
withdrawal_encoded = refl

decode_revoked_payload-encode_example : decode_revoked_payload toy revoked_bytes ≡ ok withdrawal
decode_revoked_payload-encode_example =
    decode_revoked_payload-encode toy is_ascii toy-IsReadable withdrawal withdrawal revoked_bytes
      refl refl withdrawal_constructed withdrawal_encoded

-- A record with the parts that the projector reads.
abbrev record_at : ℕ → ℕ → Bytes → Bytes → StructuralRecord
record_at sequence kind payload digest = record {
  bytes = [];
  record_body_bytes = none;
  record_digest = digest;
  event = record {
    bytes = [];
    digest = [];
    ledger_id = [];
    sequence = sequence;
    previous_record_digest = [];
    has_previous_record_digest = true;
    admitted_at_unix_ms = 0;
    kind = kind;
    payload_version = 1;
    payload_bytes = some payload;
  };
  signer_key_reference = [];
  signature_bytes = none;
}

abbrev genesis : StructuralRecord
genesis = record_at 1 1 [] (replicate 32 9)

abbrev endorsing : StructuralRecord
endorsing = record_at 2 2 accepted_bytes endorsement_digest

abbrev withdrawing : StructuralRecord
withdrawing = record_at 3 3 revoked_bytes (replicate 32 11)

-- The same revocation once more, which the graph refuses.
abbrev withdrawing_again : StructuralRecord
withdrawing_again = record_at 4 3 revoked_bytes (replicate 32 12)

abbrev stored : List StructuralRecord
stored = genesis ∷ endorsing ∷ withdrawing ∷ withdrawing_again ∷ record_at 5 9 [] [] ∷ []

abbrev empty : Graph
empty = new_graph []

stops_at_repeat :
    ((apply_records toy stored empty).0 ≡ 3)
    × ((apply_records toy stored empty).1.1 ≡ some (refused edge_already_revoked))
unfolding code
stops_at_repeat = (refl, refl)

apply_records-IsReplayed_example : IsReplayed toy stored empty (apply_records toy stored empty)
apply_records-IsReplayed_example = apply_records-IsReplayed toy stored empty (omega arith)

apply_records-IsIndexed_example : IsIndexed (apply_records toy stored empty).1.0
apply_records-IsIndexed_example = apply_records-IsIndexed toy stored empty (new_graph-IsIndexed [])

abbrev started : Graph
started = (apply_record toy genesis empty).0

started_at_one : started.last_sequence ≡ 1
unfolding code
started_at_one = refl

apply_record-cases_example :
    (((apply_record toy endorsing started).1 ≢ none)
      × ((apply_record toy endorsing started).0 ≡ started))
    ⊎ (((apply_record toy endorsing started).1 ≡ none)
        × IsNext endorsing started (apply_record toy endorsing started).0)
apply_record-cases_example =
    apply_record-cases toy endorsing started (omega (arith, started_at_one))
