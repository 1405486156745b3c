-- ===== src/Tests/Encoding.antt =====
-- A small encoding with the laws of the CBOR library, and a stand-in for SHA-256, to run the
-- protocol kernel on concrete inputs.
use chain_application.Prelude.{
  ℕ, zero, suc, ◌+◌, ◌≤◌, ◌≡◌, refl, Bytes, Slice, List, [], ◌∷◌, ◌++◌, none, some, Result, ok, err,
  arith, length, length-append, length-replicate, take, drop, take-append, drop-append, replicate,
}
use chain_application.Ledger.Codec.{CborError, syntax, Codec, GenericMap, keys}
use chain_application.Ledger.Codec.Canonical.{IsFaithful, IsFaithful→IsReread}
use chain_application.Ledger.Wires.{
  EventBodyWire, RecordBodyWire, LedgerRecordWire, Libraries, IsDocumented, event_body_keys,
  record_body_keys, ledger_record_keys,
}

abbrev pub Entries : Type 0
Entries = List (ℕ × Bytes)

-- Each entry is its key, the length of its value, and the value.
unfoldable pub write : Entries → Bytes
write [] = []
write ((k, v) ∷ m) = k ∷ length v ∷ (v ++ write m)

-- The fuel is at least the number of bytes left.
unfoldable pub read : ℕ → Bytes → Result CborError Entries
read zero [] = ok []
read zero (k ∷ b) = err syntax
read (suc f) [] = ok []
read (suc f) (k ∷ []) = err syntax
read (suc f) (k ∷ n ∷ b) = elim (read f (drop n b)) [
  | ok m ↦ ok ((k, take n b) ∷ m)
  | err e ↦ err e
]

read-write : (f : ℕ) (m : Entries) → length (write m) ≤ f → read f (write m) ≡ ok m
unfolding read write
read-write zero [] h = refl
read-write (suc f) [] h = refl
read-write zero ((k, v) ∷ m) h = absurd (omega arith)
read-write (suc f) ((k, v) ∷ m) h = ground (
  arith,
  drop-append v (write m),
  take-append v (write m),
  read-write f m (omega (arith, length-append v (write m))),
)

unfoldable pub read_map : Bytes → Result CborError Entries
read_map [] = err syntax
read_map (x ∷ b) = read (length b) b

unfoldable pub write_map : Entries → Bytes
write_map m = 0xa0 ∷ write m

pub read_map-write_map : (m : Entries) → read_map (write_map m) ≡ ok m
unfolding read_map write_map
read_map-write_map m = read-write (length (write m)) m (omega arith)

abbrev pub number : ℕ → Bytes
number n = n ∷ []

abbrev pub of_number : Bytes → ℕ
of_number [] = 0
of_number (n ∷ b) = n

abbrev pub slice : Slice → Bytes
slice none = []
slice (some b) = 1 ∷ b

abbrev pub of_slice : Bytes → Slice
of_slice [] = none
of_slice (n ∷ b) = some b

pub of_slice-slice : (s : Slice) → of_slice (slice s) ≡ s
of_slice-slice none = refl
of_slice-slice (some b) = refl

abbrev event_entries : EventBodyWire → Entries
event_entries w =
    (0, number w.protocol_version)
    ∷ (1, slice w.ledger_id)
    ∷ (2, number w.sequence)
    ∷ (3, slice w.previous_record_digest)
    ∷ (4, number w.admitted_at_unix_ms)
    ∷ (5, number w.event_kind)
    ∷ (6, number w.payload_version)
    ∷ (7, slice w.payload_bytes)
    ∷ []

abbrev of_event_entries : Entries → Result CborError EventBodyWire
of_event_entries ((_, a) ∷ (_, b) ∷ (_, c) ∷ (_, d) ∷ (_, e) ∷ (_, f) ∷ (_, g) ∷ (_, h) ∷ []) =
    ok (record {
      protocol_version = of_number a;
      ledger_id = of_slice b;
      sequence = of_number c;
      previous_record_digest = of_slice d;
      admitted_at_unix_ms = of_number e;
      event_kind = of_number f;
      payload_version = of_number g;
      payload_bytes = of_slice h;
    })
of_event_entries _ = err syntax

abbrev body_entries : RecordBodyWire → Entries
body_entries w =
    (0, number w.record_version)
    ∷ (1, slice w.event_body_bytes)
    ∷ (2, w.event_digest_algorithm)
    ∷ (3, slice w.event_digest)
    ∷ (4, w.signer_key_reference)
    ∷ (5, w.signature_algorithm)
    ∷ (6, w.signature_encoding)
    ∷ (7, slice w.signature_bytes)
    ∷ []

abbrev of_body_entries : Entries → Result CborError RecordBodyWire
of_body_entries ((_, a) ∷ (_, b) ∷ (_, c) ∷ (_, d) ∷ (_, e) ∷ (_, f) ∷ (_, g) ∷ (_, h) ∷ []) =
    ok (record {
      record_version = of_number a;
      event_body_bytes = of_slice b;
      event_digest_algorithm = c;
      event_digest = of_slice d;
      signer_key_reference = e;
      signature_algorithm = f;
      signature_encoding = g;
      signature_bytes = of_slice h;
    })
of_body_entries _ = err syntax

abbrev outer_entries : LedgerRecordWire → Entries
outer_entries w =
    (0, number w.record_version)
    ∷ (1, slice w.record_body_bytes)
    ∷ (2, w.record_digest_algorithm)
    ∷ (3, slice w.record_digest)
    ∷ []

abbrev of_outer_entries : Entries → Result CborError LedgerRecordWire
of_outer_entries ((_, a) ∷ (_, b) ∷ (_, c) ∷ (_, d) ∷ []) = ok (record {
  record_version = of_number a;
  record_body_bytes = of_slice b;
  record_digest_algorithm = c;
  record_digest = of_slice d;
})
of_outer_entries _ = err syntax

abbrev of_no_entries : Entries → Result CborError (Unit {0})
of_no_entries [] = ok tt
of_no_entries (e ∷ m) = err syntax

abbrev then_read {ℓ} :
    {W : Type ℓ} → (Entries → Result CborError W) → Result CborError Entries → Result CborError W
then_read f (ok m) = f m
then_read f (err e) = err e

-- The codec of a struct with these entries.
abbrev pub entry_codec {ℓ} : {W : Type ℓ} → (W → Entries) → (Entries → Result CborError W) → Codec W
entry_codec to of = record {
  marshal = λ w. some (write_map (to w));
  unmarshal = λ b. then_read of (read_map b);
}

abbrev pub generic_codec : Codec (GenericMap Bytes)
generic_codec = record { marshal = λ m. some (write_map m); unmarshal = read_map }

pub entry_codec-IsFaithful :
    {W : Type 0} (to : W → Entries) (of : Entries → Result CborError W) (expected : List ℕ)
    → ((w : W) → of (to w) ≡ ok w)
    → ((w : W) → keys (to w) ≡ expected)
    → IsFaithful generic_codec (entry_codec to of) expected
unfolding write_map
entry_codec-IsFaithful to of expected back same = record {
  read_written = λ w b h. ground (arith, read_map-write_map (to w), back w);
  generic_entries = λ w b h. (to w, ground (arith, read_map-write_map (to w)), h, same w);
  nonempty = λ w b h. ground arith;
}

abbrev pub sum : Bytes → ℕ
sum [] = 0
sum (x ∷ xs) = x + sum xs

abbrev pub toy_libraries : Libraries
toy_libraries = record {
  Any = Bytes;
  generic = generic_codec;
  event_body = entry_codec event_entries of_event_entries;
  record_body = entry_codec body_entries of_body_entries;
  ledger_record = entry_codec outer_entries of_outer_entries;
  empty_struct = entry_codec (λ u. []) of_no_entries;
  sha256 = λ b. replicate 32 (sum b);
}

pub toy_documented : IsDocumented toy_libraries
unfolding write_map write
toy_documented = record {
  event_body_faithful =
      entry_codec-IsFaithful event_entries of_event_entries event_body_keys
        (λ w. ground (
          arith,
          of_slice-slice w.ledger_id,
          of_slice-slice w.previous_record_digest,
          of_slice-slice w.payload_bytes,
        ))
        (λ w. refl);
  record_body_reread = IsFaithful→IsReread (
      entry_codec-IsFaithful body_entries of_body_entries record_body_keys
        (λ w. ground (
          arith,
          of_slice-slice w.event_body_bytes,
          of_slice-slice w.event_digest,
          of_slice-slice w.signature_bytes,
        ))
        (λ w. refl));
  ledger_record_reread = IsFaithful→IsReread (
      entry_codec-IsFaithful outer_entries of_outer_entries ledger_record_keys
        (λ w. ground (arith, of_slice-slice w.record_body_bytes, of_slice-slice w.record_digest))
        (λ w. refl));
  empty_struct_faithful = entry_codec-IsFaithful (λ u. []) of_no_entries [] (λ u. refl) (λ u. refl);
  empty_struct_written = refl;
  digest_length = λ b. length-replicate 32 (sum b);
}
