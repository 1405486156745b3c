-- ===== src/Endorsement/Roundtrips.antt =====
-- Encoding a payload and decoding it again.
use chain_application.Prelude.{
  held, Bytes, Bool, true, ◌≡◌, ◌≢◌, subst, arith, length, replicate, copy_full, none, some, ok,
}
use chain_application.Endorsement.Wires.{Crypto, AcceptedPayloadWire, RevokedPayloadWire}
use chain_application.Endorsement.Statements.{encode_public_key}
use chain_application.Endorsement.Payloads.{
  EndorsementAcceptedPayload, EndorsementRevokedPayload, new_accepted_payload, new_revoked_payload,
  encode_accepted_payload, encode_revoked_payload, decode_public_key, decode_accepted_payload,
  decode_revoked_payload,
}

-- What the package relies on: the CBOR library reads back what it writes where the text in it is UTF-8,
-- which it checks when it reads and not when it writes, and the uncompressed form of a key has 65 bytes
-- and is parsed as that key.
pub record IsReadable (crypto : Crypto) (is_utf8 : Bytes → Bool) : Type 0 where
  pub accepted_read :
      (w : AcceptedPayloadWire) (b : Bytes)
      → is_utf8 w.topic ≡ true
      → crypto.accepted_payload.marshal w ≡ some b
      → crypto.accepted_payload.unmarshal b ≡ ok w
  pub revoked_read :
      (w : RevokedPayloadWire) (b : Bytes)
      → is_utf8 w.reason ≡ true
      → crypto.revoked_payload.marshal w ≡ some b
      → crypto.revoked_payload.unmarshal b ≡ ok w
  pub key_length :
      (k : crypto.PublicKey) (b : Bytes) → crypto.public_key_bytes k ≡ some b → length b ≡ 65
  pub key_parsed :
      (k : crypto.PublicKey) (b : Bytes)
      → crypto.public_key_bytes k ≡ some b
      → crypto.parse_public_key b ≡ some k

module _ (crypto : Crypto) (is_utf8 : Bytes → Bool) (laws : IsReadable crypto is_utf8) where
  open crypto use {PublicKey, public_key_bytes, parse_public_key, accepted_payload, revoked_payload}

  abbrev accepted_wire : EndorsementAcceptedPayload PublicKey → Bytes → Bytes → AcceptedPayloadWire
  accepted_wire p proposer subject = record {
    version = 1;
    proposer_public_key = some proposer;
    subject_public_key = some subject;
    topic = p.topic;
    claim_body_bytes = p.claim_body_bytes;
    proposed_at_unix_ms = p.proposed_at_unix_ms;
    proposer_signature = p.proposer_signature;
    accepted_at_unix_ms = p.accepted_at_unix_ms;
    subject_signature = p.subject_signature;
  }

  abbrev revoked_wire : EndorsementRevokedPayload PublicKey → Bytes → RevokedPayloadWire
  revoked_wire r revoker = record {
    version = 1;
    target_record_digest = some r.target_record_digest;
    revoker_public_key = some revoker;
    role = r.role;
    revoked_at_unix_ms = r.revoked_at_unix_ms;
    reason = r.reason;
    revoker_signature = r.revoker_signature;
  }

  key_decoded :
      (k : PublicKey) (b : Bytes)
      → public_key_bytes k ≡ some b
      → decode_public_key crypto (some b) ≡ ok k
  unfolding decode_public_key
  key_decoded k b h = ground (arith, laws.key_length k b h, laws.key_parsed k b h)

  constructed :
      (given p : EndorsementAcceptedPayload PublicKey)
      → new_accepted_payload given ≡ ok p
      → (p.proposer_public_key ≢ none) × (p.subject_public_key ≢ none) × (given ≡ p)
  unfolding new_accepted_payload
  constructed given p h = ground arith

  record IsWritten (p : EndorsementAcceptedPayload PublicKey) (b : Bytes) : Type 0 where
    proposer : PublicKey
    subject : PublicKey
    x : Bytes
    y : Bytes
    has_proposer : p.proposer_public_key ≡ some proposer
    has_subject : p.subject_public_key ≡ some subject
    x_written : public_key_bytes proposer ≡ some x
    y_written : public_key_bytes subject ≡ some y
    written : accepted_payload.marshal (accepted_wire p x y) ≡ some b

  encode→IsWritten :
      (p : EndorsementAcceptedPayload PublicKey) (b : Bytes)
      → p.proposer_public_key ≢ none
      → p.subject_public_key ≢ none
      → encode_accepted_payload crypto p ≡ ok b
      → IsWritten p b
  unfolding encode_accepted_payload encode_public_key
  encode→IsWritten p b np ns h =
      let (a, e) = held p.proposer_public_key np in
      let (c, f) = held p.subject_public_key ns in
      let (x, xe) = held (public_key_bytes a) (λ z. ground (arith, e)) in
      let (y, ye) = held (public_key_bytes c) (λ z. ground (arith, e, f, xe)) in
      record {
        proposer = a;
        subject = c;
        x = x;
        y = y;
        has_proposer = e;
        has_subject = f;
        x_written = xe;
        y_written = ye;
        written = ground (arith, e, f, xe, ye);
      }

  read_back :
      (p : EndorsementAcceptedPayload PublicKey) (b : Bytes)
      → IsWritten p b
      → is_utf8 p.topic ≡ true
      → new_accepted_payload p ≡ ok p
      → decode_accepted_payload crypto b ≡ ok p
  unfolding decode_accepted_payload
  read_back p b w text n =
      let read = laws.accepted_read (accepted_wire p w.x w.y) b text w.written in
      ground (
        arith,
        read,
        w.has_proposer,
        w.has_subject,
        key_decoded w.proposer w.x w.x_written,
        key_decoded w.subject w.y w.y_written,
      )

  -- An endorsement with a topic in UTF-8 that was constructed and then encoded is decoded to itself.
  pub decode_accepted_payload-encode :
      (given p : EndorsementAcceptedPayload PublicKey) (b : Bytes)
      → is_utf8 p.topic ≡ true
      → new_accepted_payload given ≡ ok p
      → encode_accepted_payload crypto p ≡ ok b
      → decode_accepted_payload crypto b ≡ ok p
  decode_accepted_payload-encode given p b text n h =
      let (np, ns, same) = constructed given p n in
      read_back p b (encode→IsWritten p b np ns h) text
        (subst (λ z. new_accepted_payload z ≡ ok p) same n)

  -- A revocation of a digest of 32 bytes, with a reason in UTF-8, that was constructed and then encoded is decoded to itself.
  pub decode_revoked_payload-encode :
      (given p : EndorsementRevokedPayload PublicKey) (b : Bytes)
      → length given.target_record_digest ≡ 32
      → is_utf8 p.reason ≡ true
      → new_revoked_payload given ≡ ok p
      → encode_revoked_payload crypto p ≡ ok b
      → decode_revoked_payload crypto b ≡ ok p
  unfolding new_revoked_payload encode_revoked_payload decode_revoked_payload encode_public_key
  decode_revoked_payload-encode given p b l text n h =
      let (a, e) = held p.revoker_public_key (λ z. ground arith) in
      let (x, xe) = held (public_key_bytes a) (λ z. ground (arith, e)) in
      let w = revoked_wire p x in
      let written : revoked_payload.marshal w ≡ some b = ground (arith, e, xe) in
      ground (
        arith,
        e,
        key_decoded a x xe,
        laws.revoked_read w b text written,
        copy_full (replicate 32 0) p.target_record_digest,
      )
