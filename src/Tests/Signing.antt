-- ===== src/Tests/Signing.antt =====
-- A stand-in for the P-256 keys and signatures, with the CBOR library at the wire structs of the
-- endorsement package. A key is its own 65 bytes, and a signature is the sum of the key's bytes and 8 bytes
-- of the digest.
use chain_application.Prelude.{
  Bytes, [], ◌∷◌, Bool, true, ltb, ◌&&◌, Option, none, some, Result, ok, err, arith, length, take,
  replicate, contents, bytes_equal, ◌==◌, if◌then◌else◌,
}
use chain_application.Ledger.Codec.{CborError, syntax}
use chain_application.Endorsement.Wires.{
  Crypto, ProposalStatementWire, AcceptanceStatementWire, RevocationStatementWire,
  AcceptedPayloadWire, RevokedPayloadWire,
}
use chain_application.Endorsement.Roundtrips.{IsReadable}
use chain_application.Tests.Encoding.{
  Entries, number, of_number, slice, of_slice, of_slice-slice, sum, entry_codec, read_map-write_map,
}

-- The statements are written and never read.
abbrev unread {ℓ} : {W : Type ℓ} → Entries → Result CborError W
unread m = err syntax

abbrev proposal_entries : ProposalStatementWire → Entries
proposal_entries w =
    (0, number w.version)
    ∷ (1, slice w.proposer_public_key)
    ∷ (2, slice w.subject_public_key)
    ∷ (3, w.topic)
    ∷ (4, slice w.claim_body_bytes)
    ∷ (5, number w.proposed_at_unix_ms)
    ∷ []

abbrev acceptance_entries : AcceptanceStatementWire → Entries
acceptance_entries w =
    (0, number w.version) ∷ (1, slice w.proposal_digest) ∷ (2, number w.accepted_at_unix_ms) ∷ []

abbrev revocation_entries : RevocationStatementWire → Entries
revocation_entries w =
    (0, number w.version)
    ∷ (1, slice w.target_record_digest)
    ∷ (2, slice w.revoker_public_key)
    ∷ (3, number w.role)
    ∷ (4, number w.revoked_at_unix_ms)
    ∷ (5, w.reason)
    ∷ []

abbrev accepted_entries : AcceptedPayloadWire → Entries
accepted_entries w =
    (0, number w.version)
    ∷ (1, slice w.proposer_public_key)
    ∷ (2, slice w.subject_public_key)
    ∷ (3, w.topic)
    ∷ (4, slice w.claim_body_bytes)
    ∷ (5, number w.proposed_at_unix_ms)
    ∷ (6, slice w.proposer_signature)
    ∷ (7, number w.accepted_at_unix_ms)
    ∷ (8, slice w.subject_signature)
    ∷ []

abbrev of_accepted_entries : Entries → Result CborError AcceptedPayloadWire
of_accepted_entries
      ((_, a) ∷ (_, b) ∷ (_, c) ∷ (_, d) ∷ (_, e) ∷ (_, f) ∷ (_, g) ∷ (_, h) ∷ (_, i) ∷ []) =
    ok (record {
      version = of_number a;
      proposer_public_key = of_slice b;
      subject_public_key = of_slice c;
      topic = d;
      claim_body_bytes = of_slice e;
      proposed_at_unix_ms = of_number f;
      proposer_signature = of_slice g;
      accepted_at_unix_ms = of_number h;
      subject_signature = of_slice i;
    })
of_accepted_entries _ = err syntax

abbrev revoked_entries : RevokedPayloadWire → Entries
revoked_entries w =
    (0, number w.version)
    ∷ (1, slice w.target_record_digest)
    ∷ (2, slice w.revoker_public_key)
    ∷ (3, number w.role)
    ∷ (4, number w.revoked_at_unix_ms)
    ∷ (5, w.reason)
    ∷ (6, slice w.revoker_signature)
    ∷ []

abbrev of_revoked_entries : Entries → Result CborError RevokedPayloadWire
of_revoked_entries ((_, a) ∷ (_, b) ∷ (_, c) ∷ (_, d) ∷ (_, e) ∷ (_, f) ∷ (_, g) ∷ []) =
    ok (record {
      version = of_number a;
      target_record_digest = of_slice b;
      revoker_public_key = of_slice c;
      role = of_number d;
      revoked_at_unix_ms = of_number e;
      reason = f;
      revoker_signature = of_slice g;
    })
of_revoked_entries _ = err syntax

abbrev of_length_65 : Bytes → Option Bytes
of_length_65 b = if length b == 65 then some b else none

abbrev pub sign : Bytes → Bytes → Bytes
sign key digest = sum key ∷ take 8 digest

abbrev pub toy_crypto : Crypto
toy_crypto = record {
  PublicKey = Bytes;
  parse_public_key = of_length_65;
  public_key_bytes = of_length_65;
  verify_asn1 = λ key digest signature. bytes_equal (sign key digest) (contents signature);
  sha256 = λ b. replicate 32 (sum b);
  proposal_statement = entry_codec proposal_entries unread;
  acceptance_statement = entry_codec acceptance_entries unread;
  revocation_statement = entry_codec revocation_entries unread;
  accepted_payload = entry_codec accepted_entries of_accepted_entries;
  revoked_payload = entry_codec revoked_entries of_revoked_entries;
}

-- ASCII is UTF-8.
abbrev pub is_ascii : Bytes → Bool
is_ascii [] = true
is_ascii (b ∷ bs) = ltb b 128 && is_ascii bs

pub toy-IsReadable : IsReadable toy_crypto is_ascii
toy-IsReadable = record {
  accepted_read = λ w b text h. ground (
    arith,
    read_map-write_map (accepted_entries w),
    of_slice-slice w.proposer_public_key,
    of_slice-slice w.subject_public_key,
    of_slice-slice w.claim_body_bytes,
    of_slice-slice w.proposer_signature,
    of_slice-slice w.subject_signature,
  );
  revoked_read = λ w b text h. ground (
    arith,
    read_map-write_map (revoked_entries w),
    of_slice-slice w.target_record_digest,
    of_slice-slice w.revoker_public_key,
    of_slice-slice w.revoker_signature,
  );
  key_length = λ k b h. ground arith;
  key_parsed = λ k b h. ground arith;
}
