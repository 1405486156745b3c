-- ===== src/Admission/Continued.antt =====
-- What Admit appends continues the chain of the head that it read.
use chain_application.Prelude.{
  ℕ, ◌+◌, ◌%◌, ◌≤◌, ◌<◌, ◌≡◌, ◌≢◌, inl, inr, refl, sym, ap, ◌∙◌, subst, arith, Bytes, replicate,
  copy_full, true, Option, none, some, ok, err, length, Result-cases,
}
use chain_application.Ledger.Constants.{
  max_uint64, uint64_mod, digest_bytes, ledger_id_bytes, event_kind_ledger_initialized,
}
use chain_application.Ledger.Errors.{Checked}
use chain_application.Ledger.Digests.{digest_record_body, domain_separated_digest}
use chain_application.Ledger.Wires.{Libraries, IsDocumented}
use chain_application.Ledger.Event.{StructuralEvent, new_event_wire, validate_event_body_wire}
use chain_application.Ledger.Event.Construction.{IsBuilt, new_event-IsBuilt}
use chain_application.Ledger.Event.Semantics.{IsValidated, validate_event_structure-IsValidated}
use chain_application.Ledger.Record.{StructuralRecord, validate_record_structure, new_record}
use chain_application.Ledger.Record.Integrity.{validate_record_structure_iff}
use chain_application.Ledger.Record.Construction.{new_record-event}
use chain_application.Ledger.Chain.{ChainState, validate_chain_consistency}
use chain_application.Ledger.Chain.Links.{
  IsNext, IsGood, next_state, validate_chain_consistency_iff,
}
use chain_application.LedgerStore.{head}
use chain_application.LedgerStore.Reads.{head_iff}
use chain_application.Admission.{
  Environment, AdmitRequest, sign_event, assembled, next_event, admit,
}
use chain_application.Admission.Stored.{IsAdmitted, admit-IsAdmitted}

module _ (libraries : Libraries) (documented : IsDocumented libraries) where
  -- The digest of a validated record is one of SHA-256.
  length-record_digest :
      (encoded : Bytes) (r : StructuralRecord)
      → validate_record_structure libraries encoded ≡ ok r
      → length r.record_digest ≡ 32
  unfolding digest_record_body domain_separated_digest
  length-record_digest encoded r h =
      let l = (validate_record_structure_iff libraries encoded r).0 h in
      ap (λ (q : StructuralRecord). length q.record_digest) l.record_eq
      ∙ ap length (sym l.record_digest_eq)
      ∙ documented.digest_length _

  -- A wire struct with a number has one above zero.
  numbered :
      (id : Bytes) (n : ℕ) (previous : Option Bytes) (at kind version : ℕ) (body : Option Bytes)
      → validate_event_body_wire (new_event_wire id n previous at kind version body) ≡ ok tt
      → 0 < n
  unfolding validate_event_body_wire
  numbered id n previous at kind version body h = ground (arith, h)

  module _ (environment : Environment) where
    open environment use {database, sign, key_reference, now}
    open database use {World}

    -- A record that was signed is one of the event.
    sign_event-IsBuilt :
        (made : Checked StructuralEvent) (world : World) (built : StructuralRecord)
        → (sign_event libraries environment made world).1 ≡ ok built
        → (event : StructuralEvent) × (made ≡ ok event)
          × ((signature : Option Bytes) × (new_record libraries event key_reference signature
                ≡ ok built))
    unfolding sign_event
    sign_event-IsBuilt (err e) world built h = absurd (ground (arith, h))
    sign_event-IsBuilt (ok event) world built h =
        (event, refl, by_signature (sign event.digest world) h)
      where
        by_signature :
            (answer : World × Option (Option Bytes))
            → (assembled libraries environment event answer).1 ≡ ok built
            → (signature : Option Bytes) × (new_record libraries event key_reference signature
                ≡ ok built)
        by_signature (u, none) g = absurd (ground (arith, g))
        by_signature (u, some signature) g =
            elim (Result-cases (new_record libraries event key_reference signature)) [
              | inl (q, e) ↦ (signature, e ∙ ground (arith, rw e at g))
              | inr (x, e) ↦ absurd (ground (arith, rw e at g))
            ]

    -- The head of a ledger that is initialized: its identifier, and the digest of a record.
    head-IsHead :
        (id : Bytes) (world : World) (state : ChainState)
        → (head libraries database id world).1 ≡ ok state
        → state.initialized ≡ true
        → (state.ledger_id ≡ id) × (length state.last_record_digest ≡ 32)
    head-IsHead id world state read live =
        elim ((head_iff libraries database id world state).0 read) [
          | inl (none_there, zero) ↦ absurd (ground (arith, live, zero))
          | inr (r, ((bytes, found, holds), filled, same, is)) ↦ (
            ap (λ (q : ChainState). q.ledger_id) is,
            ap (λ (q : ChainState). length q.last_record_digest) is
                ∙ length-record_digest bytes r holds,
          )
        ]

    -- The record of the event after a state is the next one of its chain.
    built-IsNext :
        (request : AdmitRequest) (state : ChainState) (at : ℕ) (event : StructuralEvent)
        → IsBuilt libraries documented request.ledger_id
            ((state.last_sequence + 1) % uint64_mod)
            (some state.last_record_digest)
            at
            request.event_kind
            request.payload_version
            request.payload_bytes
            event
        → length request.ledger_id ≡ 32
        → request.event_kind ≢ event_kind_ledger_initialized
        → state.ledger_id ≡ request.ledger_id
        → length state.last_record_digest ≡ 32
        → state.last_sequence ≤ max_uint64
        → (built : StructuralRecord) → built.event ≡ event
        → IsNext state built
    built-IsNext request state at event b id_length kind same digest_length range built held =
        let above = numbered _ _ _ _ _ _ _ b.valid in
        let whole = held ∙ b.same in
        record {
          room = ground (arith, above, range);
          same_ledger =
              ap (λ (v : StructuralEvent). v.ledger_id) whole
              ∙ copy_full (replicate ledger_id_bytes 0) request.ledger_id id_length
              ∙ sym same;
          next_sequence =
              ap (λ (v : StructuralEvent). v.sequence) whole ∙ ground (arith, above, range);
          has_link = ap (λ (v : StructuralEvent). v.has_previous_record_digest) whole;
          link =
              ap (λ (v : StructuralEvent). v.previous_record_digest) whole
              ∙ copy_full (replicate digest_bytes 0) state.last_record_digest digest_length;
          no_genesis = λ e. kind (sym (ap (λ (v : StructuralEvent). v.kind) whole) ∙ e);
        }

    -- The chain accepts the record at the state, and the state that it establishes comes next.
    abbrev pub IsContinued : ChainState → StructuralRecord → Type 0
    IsContinued state built =
        validate_chain_consistency libraries state built ≡ (next_state built, none)

    IsAdmitted-IsContinued :
        (request : AdmitRequest) (r : StructuralRecord)
        (a : IsAdmitted libraries environment request r)
        → length request.ledger_id ≡ 32
        → request.event_kind ≢ event_kind_ledger_initialized
        → a.state.last_sequence ≤ max_uint64
        → IsContinued a.state a.built
    unfolding next_event
    IsAdmitted-IsContinued request r a id_length kind range =
        let (event, made, (signature, wrapped)) = sign_event-IsBuilt _ _ a.built a.signed in
        let b = new_event-IsBuilt libraries documented _ _ _ _ _ _ _ event made in
        let (held, filled) =
          new_record-event libraries documented event key_reference signature a.built b.again
            wrapped in
        let (same, digest_length) =
          head-IsHead request.ledger_id a.before a.state a.read a.initialized in
        let next =
          built-IsNext request a.state _ event b id_length kind same digest_length range a.built
            held in
        let good : IsGood libraries a.built = record {
          nonempty = filled;
          validated =
              subst (IsValidated libraries) (sym held) (
                validate_event_structure-IsValidated libraries documented event.bytes event
                  b.again);
        } in
        (validate_chain_consistency_iff libraries documented a.state a.built good range).1
          (inr (a.initialized, next))

    -- Where the documented laws hold and the heads of the ledger have sequence numbers of 64 bits, a
    -- record that Admit returns for a ledger identifier of 32 bytes and an event that is no genesis rests
    -- on a record that was built on such a head, and that the chain accepts as its continuation.
    pub admit-IsContinued :
        (max_retries : ℕ) (request : AdmitRequest) (world : World) (r : StructuralRecord)
        → length request.ledger_id ≡ 32
        → request.event_kind ≢ event_kind_ledger_initialized
        → ((at : World) (state : ChainState)
            → (head libraries database request.ledger_id at).1 ≡ ok state
            → state.last_sequence ≤ max_uint64)
        → (admit libraries environment max_retries request world).1 ≡ ok r
        → (a : IsAdmitted libraries environment request r) × IsContinued a.state a.built
    admit-IsContinued max_retries request world r id_length kind range h =
        let a = admit-IsAdmitted libraries environment max_retries request world r h in
        (a, IsAdmitted-IsContinued request r a id_length kind (range a.before a.state a.read))
