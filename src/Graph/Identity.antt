-- ===== src/Graph/Identity.antt =====
-- internal/graph/v1/identity.go: identities as uncompressed points of P-256.
use chain_application.Prelude.{
  Bytes, [], ◌∷◌, Bool, false, not, Option, none, some, Result, ok, err, ◌>>=◌, ◌>>◌, fail_if, ◌==◌,
  length, copy, replicate, decode_hex,
}
use chain_application.Endorsement.Wires.{Crypto}

pub data IdentityError : Type 0 where
  invalid_identity_key_length invalid_identity_key_format invalid_curve_point : IdentityError
  nil_public_key unencodable_key undecodable_hex : IdentityError

-- `b[0] == 0x04`, where `b` is not empty.
abbrev pub is_uncompressed : Bytes → Bool
is_uncompressed [] = false
is_uncompressed (x ∷ xs) = x == 4

abbrev pub or_fail {ℓ} : {A : Type ℓ} → IdentityError → Option A → Result IdentityError A
or_fail e none = err e
or_fail e (some a) = ok a

module _ (crypto : Crypto) where
  open crypto use {PublicKey, parse_public_key, public_key_bytes}

  unfoldable pub identity_key_from_bytes : Bytes → Result IdentityError Bytes
  identity_key_from_bytes b = do
    fail_if (not (length b == 65)) invalid_identity_key_length
    fail_if (not (is_uncompressed b)) invalid_identity_key_format
    or_fail invalid_curve_point (parse_public_key b)
    ok (copy (replicate 65 0) b)

  unfoldable pub identity_key_from_hex : Bytes → Result IdentityError Bytes
  identity_key_from_hex s = do b ← or_fail undecodable_hex (decode_hex s); identity_key_from_bytes b

  unfoldable pub identity_key_from_public_key : Option PublicKey → Result IdentityError Bytes
  identity_key_from_public_key key = do
    held ← or_fail nil_public_key key
    b ← or_fail unencodable_key (public_key_bytes held)
    identity_key_from_bytes b
