-- ===== src/Ledger/Event/Constructed.antt =====
-- What NewEvent returns, for the fields that it is given.
use chain_application.Prelude.{
  ℕ, ◌≤◌, ◌≡◌, ◌↔◌, ◌++◌, ◌∷◌, refl, ap, sym, ◌∙◌, inl, inr, arith, ascii, Bytes, Slice, Bool, true,
  false, Option, none, some, ok, length, replicate, copy_full, ltb, ok_injective, Bool-cases,
  Option-cases, Result-cases,
}
use chain_application.Ledger.Codec.{encode_canonical}
use chain_application.Ledger.Constants.{max_event_body_bytes, digest_bytes}
use chain_application.Ledger.Digests.{digest_event_body, domain_separated_digest, preimage}
use chain_application.Ledger.Wires.{Libraries, IsDocumented, EventBodyWire}
use chain_application.Ledger.Event.{
  StructuralEvent, has_digest_length, is_present, copied, structural_event,
  validate_event_body_wire, new_event,
}
use chain_application.Ledger.Event.Structure.{
  IsValidWire, validate_event_body_wire-IsValidWire, validate_event_body_wire_of_IsValidWire,
  copied_ledger_id,
}
use chain_application.Ledger.Event.Construction.{new_event-eq}

-- The digest of the record before, where 32 zero bytes stand for none.
abbrev pub or_zeros : Option Bytes → Bytes
or_zeros none = replicate 32 0
or_zeros (some d) = d

abbrev pub is_given : Option Bytes → Bool
is_given none = false
is_given (some d) = true

is_present-is_given : (s : Slice) → is_present s ≡ is_given s
is_present-is_given none = refl
is_present-is_given (some b) = refl

copied-or_zeros : (s : Slice) → has_digest_length s ≡ true → copied s ≡ or_zeros s
copied-or_zeros none h = refl
copied-or_zeros (some b) h =
    let e : length b ≡ digest_bytes = ground arith in copy_full (replicate digest_bytes 0) b e

module _ (libraries : Libraries) (id : Bytes) (n : ℕ) (previous : Option Bytes)
    (at kind version : ℕ) (body : Slice) where
  -- The body with the given fields, in version 1 of the protocol.
  abbrev pub given_wire : EventBodyWire
  given_wire = record {
    protocol_version = 1;
    ledger_id = some id;
    sequence = n;
    previous_record_digest = previous;
    admitted_at_unix_ms = at;
    event_kind = kind;
    payload_version = version;
    payload_bytes = body;
  }

  -- The event with the given fields, its encoding, and the digest of that behind the domain of events
  -- and a zero byte.
  abbrev pub built_event : Bytes → StructuralEvent
  built_event encoded = record {
    bytes = encoded;
    digest = libraries.sha256 (ascii "attribution-chain:event-digest:v1" ++ 0 ∷ encoded);
    ledger_id = id;
    sequence = n;
    previous_record_digest = or_zeros previous;
    has_previous_record_digest = is_given previous;
    admitted_at_unix_ms = at;
    kind = kind;
    payload_version = version;
    payload_bytes = body;
  }

  pub record IsConstructed (event : StructuralEvent) : Type 0 where
    pub encoded : Bytes
    pub written : libraries.event_body.marshal given_wire ≡ some encoded
    pub fits : length encoded ≤ 98304
    pub valid : IsValidWire given_wire
    pub event_eq : event ≡ built_event encoded

  structural_event-eq :
      (b : Bytes) → IsValidWire given_wire → structural_event libraries b given_wire ≡ built_event b
  unfolding digest_event_body domain_separated_digest preimage
  structural_event-eq b v =
      rw
        (
          copied_ledger_id libraries b given_wire v,
          copied-or_zeros previous v.previous_length,
          is_present-is_given previous,
        )
        refl

  module _ (documented : IsDocumented libraries) where
    written-IsConstructed :
        (event : StructuralEvent) (b : Bytes)
        → libraries.event_body.marshal given_wire ≡ some b
        → new_event libraries id n previous at kind version body ≡ ok event
        → IsConstructed event
    written-IsConstructed event b written h =
        let eq = new_event-eq libraries documented id n previous at kind version body b written in
        elim (Bool-cases (ltb max_event_body_bytes (length b))) [
          | inl long ↦ absurd (ground (arith, h, rw long at eq))
          | inr fits ↦ elim (Result-cases (validate_event_body_wire given_wire)) [
            | inr (e, bad) ↦ absurd (ground (arith, h, rw (fits, bad) at eq))
            | inl (u, good) ↦
                let v = validate_event_body_wire-IsValidWire given_wire good in
                record {
                  encoded = b;
                  written = written;
                  fits = ground arith;
                  valid = v;
                  event_eq =
                      ok_injective (new_event libraries id n previous at kind version body) event _
                        h (rw (fits, good) at eq)
                      ∙ structural_event-eq b v;
                }
          ]
        ]

    new_event→IsConstructed :
        (event : StructuralEvent)
        → new_event libraries id n previous at kind version body ≡ ok event
        → IsConstructed event
    unfolding new_event encode_canonical
    new_event→IsConstructed event h =
        elim (Option-cases (libraries.event_body.marshal given_wire)) [
          | inl lost ↦ absurd (ground (arith, lost, h))
          | inr (b, written) ↦ written-IsConstructed event b written h
        ]

    IsConstructed→new_event :
        (event : StructuralEvent)
        → IsConstructed event
        → new_event libraries id n previous at kind version body ≡ ok event
    IsConstructed→new_event event c =
        let eq =
          new_event-eq libraries documented id n previous at kind version body c.encoded
            c.written in
        let fits : ltb max_event_body_bytes (length c.encoded) ≡ false = ground (arith, c.fits) in
        rw (fits, validate_event_body_wire_of_IsValidWire given_wire c.valid) at eq
        ∙ ap ok (structural_event-eq c.encoded c.valid ∙ sym c.event_eq)

    -- NewEvent returns an event exactly when the library writes the body with the given fields in at
    -- most 98304 bytes and the fields are within the bounds of the protocol, and the event is the one
    -- with the given fields, that encoding and its digest in the domain of events: the second pass of
    -- NewEvent over the bytes that it has just written never fails for another reason.
    pub new_event_iff :
        (event : StructuralEvent)
        → (new_event libraries id n previous at kind version body ≡ ok event) ↔ IsConstructed event
    new_event_iff event = (new_event→IsConstructed event, IsConstructed→new_event event)
