-- ===== src/Ledger/Codec.antt =====
-- internal/ledger/v1/codec.go: canonical encoding and decoding over the CBOR library, which is a
-- parameter: a `Codec` is what it does at one Go type under the protocol's options.
pub mod Keys
pub mod Canonical
use chain_application.Prelude.{
  ℕ, Bytes, List, [], ◌∷◌, map, Bool, true, false, not, Option, none, some, Result, ok, err, ◌>>=◌,
  ◌>>◌, fail_if, ◌||◌, ◌==◌, ltb, length, bytes_equal, if◌then◌else◌,
}
use chain_application.Ledger.Errors.{
  Sentinel, oversized_input, malformed_cbor, non_conforming_cbor, schema_violation, Stage, Checked,
  wrap_validation_error, at_stage,
}

-- The error types of the library that the code tells apart, and any other.
pub data CborError : Type 0 where
  syntax semantic duplicate_key indefinite_length tags extraneous_data : CborError
  unmarshal_type unknown_field nested_levels array_elements map_pairs other : CborError

pub record Codec {ℓ} (W : Type ℓ) : Type ℓ where
  pub marshal : W → Option Bytes
  pub unmarshal : Bytes → Result CborError W

-- `map[uint64]any`, with the entries in the order of the encoded bytes. The nil map that CBOR null
-- decodes to is the empty map here, which changes only how the refusal of null is classified.
abbrev pub GenericMap : Type 0 → Type 0
GenericMap Any = List (ℕ × Any)

abbrev pub keys : {Any : Type 0} → GenericMap Any → List ℕ
keys = map (λ e. e.0)

unfoldable pub classify_decode_error : CborError → Sentinel
classify_decode_error syntax = malformed_cbor
classify_decode_error extraneous_data = malformed_cbor
classify_decode_error semantic = non_conforming_cbor
classify_decode_error duplicate_key = non_conforming_cbor
classify_decode_error indefinite_length = non_conforming_cbor
classify_decode_error tags = non_conforming_cbor
classify_decode_error unmarshal_type = schema_violation
classify_decode_error unknown_field = schema_violation
classify_decode_error nested_levels = schema_violation
classify_decode_error array_elements = schema_violation
classify_decode_error map_pairs = schema_violation
classify_decode_error other = malformed_cbor

-- Membership in a Go set of keys.
unfoldable pub contains : ℕ → List ℕ → Bool
contains k [] = false
contains k (j ∷ js) = k == j || contains k js

-- The loop that builds the set of expected keys; `none` where a key comes twice.
unfoldable pub expected_set : List ℕ → List ℕ → Option (List ℕ)
expected_set seen [] = some seen
expected_set seen (k ∷ ks) =
    let rest = expected_set (k ∷ seen) ks in if contains k seen then none else rest

-- The loop over the keys of the decoded map.
unfoldable pub all_contained : List ℕ → List ℕ → Bool
all_contained [] expected = true
all_contained (k ∷ ks) expected = if contains k expected then all_contained ks expected else false

unfoldable pub has_exact_keys : {Any : Type 0} → GenericMap Any → List ℕ → Bool
unfolding expected_set all_contained contains
has_exact_keys values expected_keys =
    if not (length values == length expected_keys)
    then false
    else elim (expected_set [] expected_keys) [
      | none ↦ false
      | some expected ↦ all_contained (keys values) expected
    ]

-- A call of the library, with its error classified and wrapped.
abbrev pub decoded {ℓ} : {W : Type ℓ} → Stage → Result CborError W → Checked W
decoded stage (ok w) = ok w
decoded stage (err e) = err (wrap_validation_error stage (classify_decode_error e))

abbrev pub encoded_as : Stage → Option Bytes → Checked Bytes
encoded_as stage none = err (wrap_validation_error stage schema_violation)
encoded_as stage (some b) = ok b

unfoldable pub encode_canonical {ℓ} : {W : Type ℓ} → Codec W → W → ℕ → Stage → Checked Bytes
encode_canonical codec value max_bytes stage = do
  encoded ← encoded_as stage (codec.marshal value)
  fail_if (ltb max_bytes (length encoded)) (wrap_validation_error stage oversized_input)
  ok encoded

-- The destination that the caller passes is the result.
unfoldable pub decode_canonical_map {ℓ} :
    {Any : Type 0} {W : Type ℓ}
    → Codec (GenericMap Any)
    → Codec W
    → Bytes
    → ℕ
    → List ℕ
    → Stage
    → Checked W
decode_canonical_map generic_codec codec encoded max_bytes expected_keys stage = do
  fail_if (ltb max_bytes (length encoded)) (wrap_validation_error stage oversized_input)
  generic ← decoded stage (generic_codec.unmarshal encoded)
  reencoded ← encoded_as stage (generic_codec.marshal generic)
  fail_if (not (bytes_equal encoded reencoded)) (wrap_validation_error stage non_conforming_cbor)
  fail_if (not (has_exact_keys generic expected_keys))
      (wrap_validation_error stage schema_violation)
  destination ← decoded stage (codec.unmarshal encoded)
  typed_reencoded ← encoded_as stage (codec.marshal destination)
  fail_if (not (bytes_equal encoded typed_reencoded))
      (wrap_validation_error stage non_conforming_cbor)
  ok destination
