-- ===== src/Tests/Handlers.antt =====
-- An endorsement posted to the server and a confidence asked of it, and the handlers' theorems.
use chain_application.Prelude.{
  ℕ, ◌≡◌, ◌⊎◌, refl, arith, Bytes, [], ◌∷◌, true, none, some, contents, take, bytes_equal,
  encode_hex, decode_hex, hex_byte, hex_value, hex_digit, pos, to_uint64,
}
use chain_application.Ledger.Chain.{chain_state_from_record}
use chain_application.LedgerStore.{head, head_of, append, appended}
use chain_application.Endorsement.Wires.{Crypto}
use chain_application.Admission.{sign_event, next_event, attempts, admit, admit_endorsement}
use chain_application.HttpApi.{Server, parse_hex32, parse_hex_public_key, success}
use chain_application.HttpApi.Endorsements.{
  AcceptEndorsementRequest, admit_response, accepted_from, parsed_request, accept_endorsement,
}
use chain_application.HttpApi.Signed.{IsRefused, IsEndorsed, accept_endorsement-cases}
use chain_application.HttpApi.Confidence.{Narrow, EvaluateConfidenceRequest, evaluate_confidence}
use chain_application.HttpApi.Explained.{IsFinal, evaluate_confidence-IsAnswered}
use chain_application.Tests.Encoding.{toy_libraries as toy}
use chain_application.Tests.Signing.{toy_crypto}
use chain_application.Tests.Ledgers.{id, kernel}
use chain_application.Tests.Projections.{code, endorsement, ann, bob}
use chain_application.Tests.Stores.{full_database, full-IsBounded}
use chain_application.Tests.Admissions.{toy_environment, third}
use chain_application.Tests.Evaluations.{toy_floats}

abbrev toy_server : Server
toy_server = record { has_admission = true; has_store = true; max_retries = 3 }

-- A key signs with its first bytes, whatever the digest.
abbrev byte_crypto : Crypto
byte_crypto = record toy_crypto {
  verify_asn1 = λ key digest signature. bytes_equal (take 9 key) (contents signature);
}

abbrev posted : AcceptEndorsementRequest
posted = record {
  proposer_public_key_hex = encode_hex ann;
  subject_public_key_hex = encode_hex bob;
  topic = endorsement.topic;
  claim_body_hex = encode_hex (contents endorsement.claim_body_bytes);
  proposed_at_unix_ms = pos endorsement.proposed_at_unix_ms;
  proposer_signature_hex = encode_hex (take 9 ann);
  accepted_at_unix_ms = pos endorsement.accepted_at_unix_ms;
  subject_signature_hex = encode_hex (take 9 bob);
}

accept_endorsement-cases_example :
    IsRefused byte_crypto toy_server toy toy_environment
      (accept_endorsement byte_crypto toy_server toy toy_environment
        (encode_hex id)
        (some posted)
        tt).1
    ⊎ IsEndorsed byte_crypto toy_server toy toy_environment
        (encode_hex id)
        (some posted)
        (accept_endorsement byte_crypto toy_server toy toy_environment
          (encode_hex id)
          (some posted)
          tt).1
accept_endorsement-cases_example =
    accept_endorsement-cases byte_crypto toy_server toy toy_environment (encode_hex id)
      (some posted) tt

abbrev toy_narrow : Narrow ℕ
toy_narrow = record { Float32 = ℕ; widen = λ f. f; narrow = λ f. f }

abbrev asked : EvaluateConfidenceRequest ℕ
asked = record {
  target_public_key_hex = encode_hex bob;
  trust_roots = record { public_key_hex = encode_hex ann; weight = 500 } ∷ [];
  topic = none;
  max_hops = some (pos 2);
  decay_factor = none;
}

evaluate_confidence-IsAnswered_example :
    IsFinal toy_floats toy_narrow toy_crypto toy full_database toy_server 3
      (encode_hex id)
      (some asked)
      tt
      (evaluate_confidence toy_floats toy_narrow toy_crypto toy full_database toy_server 3
        (encode_hex id)
        (some asked)
        tt)
evaluate_confidence-IsAnswered_example =
    evaluate_confidence-IsAnswered toy_floats toy_narrow toy_crypto toy full_database toy_server 2
      (omega arith) full-IsBounded 3 (omega arith) (encode_hex id) (some asked) tt

abbrev posted_bytes : Bytes
posted_bytes = contents (
    byte_crypto.accepted_payload.marshal (record {
      version = 1;
      proposer_public_key = some ann;
      subject_public_key = some bob;
      topic = endorsement.topic;
      claim_body_bytes = endorsement.claim_body_bytes;
      proposed_at_unix_ms = 5;
      proposer_signature = some (take 9 ann);
      accepted_at_unix_ms = 6;
      subject_signature = some (take 9 bob);
    }))

posted_is_created :
    (accept_endorsement byte_crypto toy_server toy toy_environment
      (encode_hex id)
      (some posted)
      tt).1
    ≡ success 201 (admit_response id (third 2 posted_bytes))
unfolding kernel code head head_of append appended chain_state_from_record sign_event next_event
    attempts admit admit_endorsement encode_hex decode_hex to_uint64 parse_hex32
    parse_hex_public_key accepted_from parsed_request accept_endorsement hex_byte hex_value
    hex_digit
posted_is_created = refl
