-- ===== src/Ledger/Event/Construction.antt =====
-- Construction of events: what `new_event` builds passes its own validation.
use chain_application.Prelude.{
  Option-cases, Result-cases, ok_injective, ap, ◌∙◌, ℕ, ◌≤◌, ◌≡◌, Bytes, Slice, Option, some, ok,
  ◌>>◌, fail_if, arith, ltb, length, Bool-cases, inl, inr,
}
use chain_application.Ledger.Constants.{max_event_body_bytes}
use chain_application.Ledger.Errors.{event_body, oversized_input, wrap_validation_error, at_stage}
use chain_application.Ledger.Codec.{encode_canonical}
use chain_application.Ledger.Codec.Canonical.{
  IsCanonical, marshal-IsCanonical, decode_canonical_map_canonical,
}
use chain_application.Ledger.Wires.{
  Libraries, IsDocumented, EventBodyWire, event_body_keys, eight_keys-IsDistinct,
}
use chain_application.Ledger.Event.{
  StructuralEvent, new_event_wire, structural_event, validate_event_body_wire,
  validate_event_structure, new_event,
}

module _ (libraries : Libraries) (documented : IsDocumented libraries) where
  pub event_written-IsCanonical :
      (w : EventBodyWire) (b : Bytes)
      → libraries.event_body.marshal w ≡ some b
      → length b ≤ max_event_body_bytes
      → IsCanonical libraries.generic libraries.event_body max_event_body_bytes event_body_keys b w
  event_written-IsCanonical w b written fits =
      marshal-IsCanonical documented.event_body_faithful eight_keys-IsDistinct max_event_body_bytes
        w b written fits

  -- The outcome of `new_event`, on every branch, once the library has written the body: too long,
  -- out of bounds, or the event with the given fields. Its own second pass over the bytes that it
  -- has just written never fails for another reason.
  pub new_event-eq :
      (id : Bytes) (n : ℕ) (previous : Option Bytes) (at kind version : ℕ) (body : Slice)
      (b : Bytes)
      → libraries.event_body.marshal (new_event_wire id n previous at kind version body) ≡ some b
      → new_event libraries id n previous at kind version body ≡ (do
        fail_if
            (ltb max_event_body_bytes (length b))
            (wrap_validation_error event_body oversized_input)
        at_stage event_body
            (validate_event_body_wire (new_event_wire id n previous at kind version body))
        ok (structural_event libraries b (new_event_wire id n previous at kind version body)))
  unfolding new_event encode_canonical validate_event_structure
  new_event-eq id n previous at kind version body b written =
      let w = new_event_wire id n previous at kind version body in
      elim (Bool-cases (ltb max_event_body_bytes (length b))) [
        | inl long ↦ rw (written, long)
        | inr fits ↦ rw (
          written,
          fits,
          decode_canonical_map_canonical libraries.generic libraries.event_body max_event_body_bytes
              event_body_keys event_body b w (event_written-IsCanonical w b written (ground arith)),
        )
      ]

  -- What a constructed event is.
  pub record IsBuilt (id : Bytes) (n : ℕ) (previous : Option Bytes) (at kind version : ℕ)
      (body : Slice) (event : StructuralEvent) : Type 0 where
    pub bytes : Bytes
    pub valid : validate_event_body_wire (new_event_wire id n previous at kind version body) ≡ ok tt
    pub same :
        event ≡ structural_event libraries bytes (new_event_wire id n previous at kind version body)
    pub again : validate_event_structure libraries event.bytes ≡ ok event

  written_event :
      (id : Bytes) (n : ℕ) (previous : Option Bytes) (at kind version : ℕ) (body : Slice)
      (event : StructuralEvent) (b : Bytes)
      → libraries.event_body.marshal (new_event_wire id n previous at kind version body) ≡ some b
      → new_event libraries id n previous at kind version body ≡ ok event
      → IsBuilt id n previous at kind version body event
  unfolding new_event encode_canonical
  written_event id n previous at kind version body event b written h =
      let w = new_event_wire id n previous at kind version body in
      let eq = new_event-eq id n previous at kind version body b written in
      elim (Bool-cases (ltb max_event_body_bytes (length b))) [
        | inl long ↦ absurd (ground (arith, h, rw long at eq))
        | inr fits ↦ elim (Result-cases (validate_event_body_wire w)) [
          | inr (e, bad) ↦ absurd (ground (arith, h, rw (fits, bad) at eq))
          | inl (u, good) ↦
              let same : event ≡ structural_event libraries b w =
                ok_injective (new_event libraries id n previous at kind version body) event _ h
                  (rw (fits, good) at eq) in
              let read : validate_event_structure libraries b ≡ ok event =
                rw (written, fits) at h in
              record {
                bytes = b;
                valid = good;
                same = same;
                again =
                    ap (λ (v : StructuralEvent). validate_event_structure libraries v.bytes) same
                    ∙ read;
              }
        ]
      ]

  pub new_event-IsBuilt :
      (id : Bytes) (n : ℕ) (previous : Option Bytes) (at kind version : ℕ) (body : Slice)
      (event : StructuralEvent)
      → new_event libraries id n previous at kind version body ≡ ok event
      → IsBuilt id n previous at kind version body event
  unfolding new_event encode_canonical
  new_event-IsBuilt id n previous at kind version body event h =
      let w = new_event_wire id n previous at kind version body in
      elim (Option-cases (libraries.event_body.marshal w)) [
        | inl lost ↦ absurd (ground (arith, lost, h))
        | inr (b, written) ↦ written_event id n previous at kind version body event b written h
      ]
