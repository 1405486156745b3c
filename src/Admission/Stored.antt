-- ===== src/Admission/Stored.antt =====
-- Where a record that Admit returns comes from.
use chain_application.Prelude.{
  ℕ, zero, suc, ◌≡◌, ◌⊎◌, refl, ◌+◌, ◌∙◌, subst, arith, true, Result, ok, err, Bool-cases,
  Result-cases, inl, inr, length, contents, ◌==◌,
}
use chain_application.Ledger.Wires.{Libraries}
use chain_application.Ledger.Record.{StructuralRecord}
use chain_application.Ledger.Chain.{ChainState}
use chain_application.LedgerStore.{
  StoreError, chain_head_moved, duplicate_record, head, append, stored_record,
}
use chain_application.Admission.{
  Environment, AdmitRequest, Admitted, sign_event, settled, store_record, next_event, on_admit_head,
  attempts, admit,
}

module _ (libraries : Libraries) (environment : Environment) where
  open environment use {database, now, is_done}
  open database use {World}

  abbrev Next : Type 0
  Next = World → Admitted libraries environment

  abbrev put : StructuralRecord → World → World × Result StoreError (Unit {0})
  put = append libraries database

  -- The record was stored, or is the one stored under the digest of the one that was built, or, where
  -- that one cannot be read, the one that was built.
  abbrev pub WasPut :
      StructuralRecord → World × Result StoreError (Unit {0}) → StructuralRecord → Type 0
  WasPut built answer r =
      ((answer.1 ≡ ok tt) × (r ≡ built))
      ⊎ ((answer.1 ≡ err duplicate_record)
          × ((r ≡ built)
              ⊎ ((stored_record libraries database built.record_digest answer.0).1 ≡ ok r)))

  -- The record was built on a head of the ledger, signed and put there.
  pub record IsAdmitted (request : AdmitRequest) (r : StructuralRecord) : Type 0 where
    pub before : World
    pub state : ChainState
    pub built : StructuralRecord
    pub read : (head libraries database request.ledger_id before).1 ≡ ok state
    pub initialized : state.initialized ≡ true
    pub signed :
        (sign_event libraries environment
          (next_event libraries environment request state
            (now (head libraries database request.ledger_id before).0))
          (head libraries database request.ledger_id before).0).1
        ≡ ok built
    pub stored :
        WasPut built
          (put built
            (sign_event libraries environment
              (next_event libraries environment request state
                (now (head libraries database request.ledger_id before).0))
              (head libraries database request.ledger_id before).0).0)
          r

  -- The next attempt returns the record.
  abbrev FromNext : Next → World × Result StoreError (Unit {0}) → StructuralRecord → Type 0
  FromNext again answer r = (again answer.0).1 ≡ ok r

  settled-WasPut :
      (built r : StructuralRecord) (again : Next) (answer : World × Result StoreError (Unit {0}))
      → (settled libraries environment built again answer).1 ≡ ok r
      → WasPut built answer r ⊎ FromNext again answer r
  settled-WasPut built r again (world, ok u) h = inl (inl (refl, ground arith))
  settled-WasPut built r again (world, err duplicate_record) h =
      elim (Result-cases (stored_record libraries database built.record_digest world).1) [
        | inl (found, e) ↦ inl (inr (refl, inr (e ∙ ground (arith, e))))
        | inr (x, e) ↦ inl (inr (refl, inl (ground (arith, e))))
      ]
  settled-WasPut built r again (world, err chain_head_moved) h = elim (Bool-cases (is_done world)) [
    | inl over ↦ absurd (ground arith)
    | inr on ↦ inr (ground arith)
  ]
  settled-WasPut built r again (world, err e) h = absurd (ground arith)

  head_step :
      (request : AdmitRequest) (again : Next) (answer : World × Result StoreError ChainState)
      (state : ChainState)
      → answer.1 ≡ ok state
      → state.initialized ≡ true
      → on_admit_head libraries environment request again answer
        ≡ store_record libraries environment again (
            sign_event libraries environment
              (next_event libraries environment request state (now answer.0))
              answer.0)
  head_step request again (world, err e) state h live = absurd (ground arith)
  head_step request again (world, ok s) state h live = ground arith

  store_step :
      (again : Next) (made : Admitted libraries environment) (built : StructuralRecord)
      → made.1 ≡ ok built
      → store_record libraries environment again made
        ≡ settled libraries environment built again (put built made.0)
  store_step again (world, err e) built h = absurd (ground arith)
  store_step again (world, ok b) built h = ground arith

  -- A round from a head that was read, where the next attempt comes back with such a record.
  head-IsAdmitted :
      (request : AdmitRequest) (r : StructuralRecord) (before : World) (again : Next)
      → ((u : World) → (again u).1 ≡ ok r → IsAdmitted request r)
      → (on_admit_head libraries environment request again
          (head libraries database request.ledger_id before)).1
        ≡ ok r
      → IsAdmitted request r
  head-IsAdmitted request r before again later h =
      elim (Result-cases (head libraries database request.ledger_id before).1) [
        | inr (e, bad) ↦ absurd (ground arith)
        | inl (state, read) ↦ elim (Bool-cases state.initialized) [
          | inr dead ↦ absurd (ground arith)
          | inl live ↦
              let u = (head libraries database request.ledger_id before).0 in
              let made =
                sign_event libraries environment
                  (next_event libraries environment request state (now u)) u in
              elim (Result-cases made.1) [
                | inr (e, bad) ↦ absurd (ground (arith, read, live, bad))
                | inl (built, fine) ↦
                    elim (settled-WasPut built r again (put built made.0) (
                      subst (λ (o : Admitted libraries environment). o.1 ≡ ok r)
                        (head_step request again (head libraries database request.ledger_id before)
                            state read live
                          ∙ store_step again made built fine)
                        h)) [
                          | inr next ↦ later (put built made.0).0 next
                          | inl was ↦ record {
                            before = before;
                            state = state;
                            built = built;
                            read = read;
                            initialized = live;
                            signed = fine;
                            stored = was;
                          }
                        ]
              ]
        ]
      ]

  attempts-IsAdmitted :
      (left : ℕ) (request : AdmitRequest) (world : World) (r : StructuralRecord)
      → (attempts libraries environment left request world).1 ≡ ok r
      → IsAdmitted request r
  unfolding attempts
  attempts-IsAdmitted zero request world r h = absurd (ground arith)
  attempts-IsAdmitted (suc left) request world r h =
      head-IsAdmitted request r world (attempts libraries environment left request)
        (λ u. attempts-IsAdmitted left request u r) h

  pub admit-IsAdmitted :
      (max_retries : ℕ) (request : AdmitRequest) (world : World) (r : StructuralRecord)
      → (admit libraries environment max_retries request world).1 ≡ ok r
      → IsAdmitted request r
  unfolding admit
  admit-IsAdmitted max_retries request world r h =
      elim (Bool-cases (length (contents request.payload_bytes) == 0)) [
        | inl none_given ↦ absurd (ground arith)
        | inr given ↦ attempts-IsAdmitted (max_retries + 1) request world r (ground arith)
      ]
