-- ===== src/Signers.antt =====
-- internal/signer: the local signer (local.go) and the one of the key management service (kms.go).
-- The keys, the random source and the service are parameters; a signature that fails is `none`.
use chain_application.Prelude.{
  ℕ, Bytes, [], ◌∷◌, Bool, false, not, ◌||◌, Option, none, some, Result, ok, err, ◌>>=◌, ◌>>◌,
  fail_if, ◌==◌, ltb, length, ascii, if◌then◌else◌, ◌≡◌, ◌↔◌, arith,
}
use chain_application.Ledger.Record.{all_printable, validate_signer_key_reference}

abbrev pub min_key_reference_length : ℕ
min_key_reference_length = 1

abbrev pub max_key_reference_length : ℕ
max_key_reference_length = 512

abbrev pub algorithm_ecdsa_p256_sha256 : Bytes
algorithm_ecdsa_p256_sha256 = ascii "ecdsa-p256-sha256"

abbrev pub kms_key_version_pattern : Bytes
kms_key_version_pattern =
    ascii
      "^projects/[a-z0-9-]+/locations/[a-z0-9-]+/keyRings/[a-zA-Z0-9_-]+/cryptoKeys/[a-zA-Z0-9_-]+/cryptoKeyVersions/[0-9]+$"

pub data SignerError : Type 0 where
  nil_key generation_failed unsupported_curve key_reference_length unprintable_key_reference :
      SignerError
  nil_client invalid_key_version empty_digest signing_failed empty_signature : SignerError

-- The private keys and the service with what they answer in a state of the world.
pub record Keys : Type 1 where
  pub World : Type 0
  pub PrivateKey : Type 0
  pub Client : Type 0
  -- `ecdsa.GenerateKey` on P-256.
  pub generate_key : World → World × Option PrivateKey
  pub is_p256 : PrivateKey → Bool
  pub sha256 : Bytes → Bytes
  pub sign_asn1 : PrivateKey → Bytes → World → World × Option Bytes
  pub asymmetric_sign : Client → Bytes → Bytes → World → World × Option Bytes
  pub matches : Bytes → Bytes → Bool

-- The loop over the bytes of the reference.
unfoldable pub has_unprintable : Bytes → Bool
has_unprintable [] = false
has_unprintable (b ∷ bs) = ltb b 0x20 || ltb 0x7e b || has_unprintable bs

unfoldable pub validate_key_reference : Bytes → Result SignerError (Unit {0})
validate_key_reference ref = do
  fail_if (ltb (length ref) min_key_reference_length || ltb max_key_reference_length (length ref))
      key_reference_length
  fail_if (has_unprintable ref) unprintable_key_reference

pub record LocalSigner (PrivateKey : Type 0) : Type 0 where
  pub key : PrivateKey
  pub key_reference : Bytes

pub record KmsSigner (Client : Type 0) : Type 0 where
  pub client : Client
  pub key_version : Bytes

-- What is signed for a digest or a payload.
abbrev pub hash_of : (Bytes → Bytes) → Bytes → Bytes
hash_of sha256 digest = if length digest == 32 then digest else sha256 digest

module _ (keys : Keys) where
  open keys use {
    World, PrivateKey, Client, generate_key, is_p256, sha256, sign_asn1, asymmetric_sign, matches,
  }

  abbrev pub or_nil {ℓ} : {A : Type ℓ} → SignerError → Option A → Result SignerError A
  or_nil e none = err e
  or_nil e (some a) = ok a

  unfoldable pub new_local_signer :
      Option PrivateKey → Bytes → Result SignerError (LocalSigner PrivateKey)
  new_local_signer key reference = do
    held ← or_nil nil_key key
    fail_if (not (is_p256 held)) unsupported_curve
    validate_key_reference reference
    ok (record { key = held; key_reference = reference })

  abbrev generated :
      Bytes → World × Option PrivateKey → World × Result SignerError (LocalSigner PrivateKey)
  generated reference (world, none) = (world, err generation_failed)
  generated reference (world, some key) = (world, new_local_signer (some key) reference)

  unfoldable pub generate_local_signer :
      Bytes → World → World × Result SignerError (LocalSigner PrivateKey)
  generate_local_signer reference world = generated reference (generate_key world)

  abbrev signed_locally : World × Option Bytes → World × Result SignerError Bytes
  signed_locally (world, none) = (world, err signing_failed)
  signed_locally (world, some signature) = (world, ok signature)

  unfoldable pub sign_locally :
      LocalSigner PrivateKey → Bytes → World → World × Result SignerError Bytes
  sign_locally s digest world =
      if length digest == 0
      then (world, err empty_digest)
      else signed_locally (sign_asn1 s.key (hash_of sha256 digest) world)

  unfoldable pub new_kms_signer : Option Client → Bytes → Result SignerError (KmsSigner Client)
  new_kms_signer client name = do
    held ← or_nil nil_client client
    fail_if (not (matches kms_key_version_pattern name)) invalid_key_version
    ok (record { client = held; key_version = name })

  abbrev signed_by_service : World × Option Bytes → World × Result SignerError Bytes
  signed_by_service (world, none) = (world, err signing_failed)
  signed_by_service (world, some signature) =
      if length signature == 0 then (world, err empty_signature) else (world, ok signature)

  unfoldable pub sign_by_service :
      KmsSigner Client → Bytes → World → World × Result SignerError Bytes
  sign_by_service s digest world =
      if length digest == 0
      then (world, err empty_digest)
      else signed_by_service (asymmetric_sign s.client s.key_version (hash_of sha256 digest) world)

unprintable-all_printable : (b : Bytes) → has_unprintable b ≡ not (all_printable b)
unfolding has_unprintable all_printable
unprintable-all_printable [] = ground arith
unprintable-all_printable (c ∷ cs) = ground (arith, unprintable-all_printable cs)

-- The signer takes exactly the references that the ledger takes.
pub validate_key_reference_iff :
    (ref : Bytes)
    → (validate_key_reference ref ≡ ok tt) ↔ (validate_signer_key_reference ref ≡ ok tt)
unfolding validate_key_reference validate_signer_key_reference
validate_key_reference_iff ref = ground (arith, unprintable-all_printable ref)
