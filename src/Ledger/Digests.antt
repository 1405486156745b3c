-- ===== src/Ledger/Digests.antt =====
-- internal/ledger/v1/digest.go. SHA-256 is a parameter of what hashes.
pub mod Separation
use chain_application.Prelude.{Bytes, ◌++◌, ◌∷◌}
use chain_application.Ledger.Constants.{
  digest_domain_separator, domain_event_digest_v1, domain_record_digest_v1,
}

-- The bytes that are hashed: the domain, one separator byte, the body.
unfoldable pub preimage : Bytes → Bytes → Bytes
preimage domain body = domain ++ (digest_domain_separator ∷ body)

module _ (sha256 : Bytes → Bytes) where
  unfoldable pub domain_separated_digest : Bytes → Bytes → Bytes
  domain_separated_digest domain body = sha256 (preimage domain body)

  unfoldable pub digest_event_body : Bytes → Bytes
  digest_event_body body = domain_separated_digest domain_event_digest_v1 body

  unfoldable pub digest_record_body : Bytes → Bytes
  digest_record_body body = domain_separated_digest domain_record_digest_v1 body
