-- ===== src/Ledger/Digests/Separation.antt =====
-- Domain separation: what the digests of events and of records are digests of.
use chain_application.Prelude.{Bytes, ◌≡◌, ◌≢◌, ◌++◌, ◌∷◌, ap, arith, ascii, get_elem?}
use chain_application.Ledger.Constants.{domain_event_digest_v1, domain_record_digest_v1}
use chain_application.Ledger.Digests.{
  preimage, domain_separated_digest, digest_event_body, digest_record_body,
}

-- Two different inputs with one hash.
abbrev pub IsCollision : (Bytes → Bytes) → Bytes → Bytes → Type 0
IsCollision hash a b = (a ≢ b) × (hash a ≡ hash b)

preimages_ne :
    (event_body record_body : Bytes)
    → domain_event_digest_v1 ++ 0 ∷ event_body ≢ domain_record_digest_v1 ++ 0 ∷ record_body
preimages_ne e r h = let differ = ap (λ (b : Bytes). get_elem? b 18) h in ground arith

-- An event body and a record body with the same digest are a collision of SHA-256: the event's bytes
-- behind the domain of events and a zero byte, and the record's behind the domain of records and a
-- zero byte, are different inputs with the same hash.
pub equal_digests-IsCollision :
    (sha256 : Bytes → Bytes) (event_body record_body : Bytes)
    → digest_event_body sha256 event_body ≡ digest_record_body sha256 record_body
    → IsCollision sha256
        (ascii "attribution-chain:event-digest:v1" ++ 0 ∷ event_body)
        (ascii "attribution-chain:record-digest:v1" ++ 0 ∷ record_body)
unfolding digest_event_body digest_record_body domain_separated_digest preimage
equal_digests-IsCollision sha256 e r same = (preimages_ne e r, same)
