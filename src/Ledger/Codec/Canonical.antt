-- ===== src/Ledger/Codec/Canonical.antt =====
-- What canonical decoding accepts, exactly, and what canonical encoding writes.
use chain_application.Prelude.{
  ok_injective, ℕ, ◌≤◌, ◌≡◌, Bytes, List, true, some, ok, arith, length, sym, ap, subst, ◌<◌,
  bytes_equal→eq, bytes_equal_refl, Result-cases, inl, inr, Option-cases,
}
use chain_application.Ledger.Codec.Keys.{IsDistinct, has_exact_keys_iff}
use chain_application.Ledger.Errors.{Stage}
use chain_application.Ledger.Codec.{
  Codec, GenericMap, keys, contains, has_exact_keys, decode_canonical_map,
}

-- The bytes fit, and both the generic and the typed value of them encode to them again.
pub record IsCanonical {Any W : Type 0} (generic_codec : Codec (GenericMap Any)) (codec : Codec W)
    (max_bytes : ℕ) (expected_keys : List ℕ) (encoded : Bytes) (w : W) : Type 0 where
  pub fits : length encoded ≤ max_bytes
  pub entries : GenericMap Any
  pub generic_read : generic_codec.unmarshal encoded ≡ ok entries
  pub generic_written : generic_codec.marshal entries ≡ some encoded
  pub exact_keys : has_exact_keys entries expected_keys ≡ true
  pub read : codec.unmarshal encoded ≡ ok w
  pub written : codec.marshal w ≡ some encoded

module _ {Any W : Type 0} (generic_codec : Codec (GenericMap Any)) (codec : Codec W) (max_bytes : ℕ)
    (expected_keys : List ℕ) (stage : Stage) where
  -- What is decoded is canonical.
  pub decode_canonical_map-IsCanonical :
      (encoded : Bytes) (w : W)
      → decode_canonical_map generic_codec codec encoded max_bytes expected_keys stage ≡ ok w
      → IsCanonical generic_codec codec max_bytes expected_keys encoded w
  unfolding decode_canonical_map
  decode_canonical_map-IsCanonical encoded w h =
      elim (Result-cases (generic_codec.unmarshal encoded)) [
        | inr (e, failed) ↦ absurd (ground arith)
        | inl (m, read) ↦ record {
          fits = ground arith;
          entries = m;
          generic_read = read;
          generic_written = elim (Option-cases (generic_codec.marshal m)) [
            | inl e ↦ absurd (ground arith)
            | inr (b, e) ↦ cc (bytes_equal→eq encoded b (ground arith))
          ];
          exact_keys = ground arith;
          read = ground arith;
          written = elim (Option-cases (codec.marshal w)) [
            | inl e ↦ absurd (ground arith)
            | inr (b, e) ↦ cc (bytes_equal→eq encoded b (ground arith))
          ];
        }
      ]

  -- What is canonical is decoded.
  pub decode_canonical_map_canonical :
      (encoded : Bytes) (w : W)
      → IsCanonical generic_codec codec max_bytes expected_keys encoded w
      → decode_canonical_map generic_codec codec encoded max_bytes expected_keys stage ≡ ok w
  unfolding decode_canonical_map
  decode_canonical_map_canonical encoded w c = ground (arith, bytes_equal_refl encoded)

-- The library's documented behaviour at a Go struct type: what it writes reads back, as the struct
-- and as a map with the struct's keys that encodes to the same bytes, and is not empty.
pub record IsFaithful {Any W : Type 0} (generic_codec : Codec (GenericMap Any)) (codec : Codec W)
    (expected_keys : List ℕ) : Type 0 where
  pub read_written : (w : W) (b : Bytes) → codec.marshal w ≡ some b → codec.unmarshal b ≡ ok w
  pub generic_entries :
      (w : W) (b : Bytes)
      → codec.marshal w ≡ some b
      → (m : GenericMap Any) × (generic_codec.unmarshal b ≡ ok m)
        × (generic_codec.marshal m ≡ some b)
        × (keys m ≡ expected_keys)
  pub nonempty : (w : W) (b : Bytes) → codec.marshal w ≡ some b → 0 < length b

-- The same of a struct with text, which the library writes without looking at it, and reads only where
-- it is UTF-8: what it reads of what it has written is what was written.
pub record IsReread {W : Type 0} (codec : Codec W) : Type 0 where
  pub reread : (w v : W) (b : Bytes) → codec.marshal w ≡ some b → codec.unmarshal b ≡ ok v → v ≡ w
  pub nonempty : (w : W) (b : Bytes) → codec.marshal w ≡ some b → 0 < length b

pub IsFaithful→IsReread :
    {Any W : Type 0} {generic_codec : Codec (GenericMap Any)} {codec : Codec W}
    {expected_keys : List ℕ}
    → IsFaithful generic_codec codec expected_keys
    → IsReread codec
IsFaithful→IsReread {codec = codec} faithful = record {
  reread = λ w v b written read.
      ok_injective (codec.unmarshal b) v w read (faithful.read_written w b written);
  nonempty = faithful.nonempty;
}

module _ {Any W : Type 0} {generic_codec : Codec (GenericMap Any)} {codec : Codec W}
    {expected_keys : List ℕ} (faithful : IsFaithful generic_codec codec expected_keys)
    (distinct : IsDistinct expected_keys) where
  -- What a faithful library writes within the limit is canonical.
  pub marshal-IsCanonical :
      (max_bytes : ℕ) (w : W) (b : Bytes)
      → codec.marshal w ≡ some b
      → length b ≤ max_bytes
      → IsCanonical generic_codec codec max_bytes expected_keys b w
  marshal-IsCanonical max_bytes w b written fits =
      let (m, read, again, same) = faithful.generic_entries w b written in
      record {
        fits = fits;
        entries = m;
        generic_read = read;
        generic_written = again;
        exact_keys =
            (has_exact_keys_iff m expected_keys (subst IsDistinct (sym same) distinct)).1
              (distinct, λ k. ap (contains k) same);
        read = faithful.read_written w b written;
        written = written;
      }
