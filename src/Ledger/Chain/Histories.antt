-- ===== src/Ledger/Chain/Histories.antt =====
-- Whole chains: which lists of records are accepted from the zero state, and where they lead.
use chain_application.Prelude.{
  suc, ◌≤◌, ◌<◌, ◌≡◌, ◌≢◌, ◌↔◌, refl, ap, sym, subst, ◌∙◌, List, [], ◌∷◌, true, Option, none, some,
  arith, length, inl, inr, Option-cases,
}
use chain_application.Ledger.Constants.{event_kind_ledger_initialized, max_uint64}
use chain_application.Ledger.Wires.{Libraries, IsDocumented}
use chain_application.Ledger.Event.Semantics.{IsGenesis}
use chain_application.Ledger.Record.{StructuralRecord}
use chain_application.Ledger.Chain.{
  ChainState, Outcome, zero_state, advanced, validate_chain_consistency, chain_state_from_record,
}
use chain_application.Ledger.Chain.Links.{IsGood, IsAcceptable, validate_chain_consistency_iff}

-- The state, unless the outcome holds an error.
abbrev pub succeeded : Outcome ChainState → Option ChainState
succeeded (s, none) = some s
succeeded (s, some e) = none

-- The state after all records, the newest first; `none` where one of them is refused.
abbrev after : Libraries → StructuralRecord → Option ChainState → Option ChainState
after libraries r none = none
after libraries r (some s) = succeeded (validate_chain_consistency libraries s r)

unfoldable pub replayed : Libraries → List StructuralRecord → Option ChainState
replayed libraries [] = some zero_state
replayed libraries (r ∷ rs) = after libraries r (replayed libraries rs)

-- The specification: a genesis record, then records that each number and link to the one before.
abbrev pub IsLinked : List StructuralRecord → Type 0
IsLinked [] = Unit
IsLinked (r ∷ []) = IsGenesis r.event
IsLinked (r ∷ q ∷ rs) =
    (r.event.ledger_id ≡ q.event.ledger_id)
    × (r.event.sequence ≡ suc q.event.sequence)
    × (r.event.has_previous_record_digest ≡ true)
    × (r.event.previous_record_digest ≡ q.record_digest)
    × (r.event.kind ≢ event_kind_ledger_initialized)
    × IsLinked (q ∷ rs)

abbrev pub AllGood : Libraries → List StructuralRecord → Type 0
AllGood libraries [] = Unit
AllGood libraries (r ∷ rs) = IsGood libraries r × AllGood libraries rs

-- The state that the newest record alone establishes.
abbrev pub head_state : List StructuralRecord → ChainState
head_state [] = zero_state
head_state (r ∷ rs) = chain_state_from_record r

sequence-eq-length :
    (r : StructuralRecord) (rs : List StructuralRecord)
    → IsLinked (r ∷ rs)
    → r.event.sequence ≡ length (r ∷ rs)
sequence-eq-length r [] l = l.sequence_eq
sequence-eq-length r (q ∷ rs) l = omega (arith, sequence-eq-length q rs l.5)

module _ (libraries : Libraries) (documented : IsDocumented libraries) where
  head_state-eq :
      (r : StructuralRecord)
      → IsGood libraries r
      → chain_state_from_record r ≡ advanced r.event.ledger_id r
  unfolding chain_state_from_record
  head_state-eq r g = ground (arith, g.nonempty)

  range :
      (rs : List StructuralRecord)
      → AllGood libraries rs
      → IsLinked rs
      → length rs ≤ max_uint64
      → (head_state rs).last_sequence ≤ max_uint64
  unfolding chain_state_from_record
  range [] g l fits = omega arith
  range (r ∷ rs) g l fits = ground (arith, g.0.nonempty, sequence-eq-length r rs l)

  -- One record more, on both sides.
  acceptable→linked :
      (r : StructuralRecord) (rs : List StructuralRecord)
      → AllGood libraries (r ∷ rs)
      → IsLinked rs
      → IsAcceptable (head_state rs) r
      → IsLinked (r ∷ rs)
  acceptable→linked r [] g l (inl (new, genesis)) = genesis
  acceptable→linked r [] g l (inr (old, n)) = absurd (ground arith)
  acceptable→linked r (q ∷ rs) g l a =
      linked (subst (λ s. IsAcceptable s r) (head_state-eq q g.1.0) a)
    where
      linked : IsAcceptable (advanced q.event.ledger_id q) r → IsLinked (r ∷ q ∷ rs)
      linked (inl (new, genesis)) = absurd (ground arith)
      linked (inr (old, n)) = (n.same_ledger, n.next_sequence, n.has_link, n.link, n.no_genesis, l)

  linked→acceptable :
      (r : StructuralRecord) (rs : List StructuralRecord)
      → AllGood libraries (r ∷ rs)
      → IsLinked (r ∷ rs)
      → length rs < max_uint64
      → IsAcceptable (head_state rs) r
  linked→acceptable r [] g l fits = inl (refl, l)
  linked→acceptable r (q ∷ rs) g l fits =
      subst (λ s. IsAcceptable s r) (sym (head_state-eq q g.1.0))
        (inr (
          refl,
          record {
            room = omega (arith, sequence-eq-length q rs l.5);
            same_ledger = l.0;
            next_sequence = l.1;
            has_link = l.2;
            link = l.3;
            no_genesis = l.4;
          },
        ))

  tail-IsLinked :
      (r : StructuralRecord) (rs : List StructuralRecord) → IsLinked (r ∷ rs) → IsLinked rs
  tail-IsLinked r [] l = tt
  tail-IsLinked r (q ∷ rs) l = l.5

  linked→replayed :
      (rs : List StructuralRecord)
      → AllGood libraries rs
      → length rs ≤ max_uint64
      → IsLinked rs
      → replayed libraries rs ≡ some (head_state rs)
  unfolding replayed
  linked→replayed [] g fits l = refl
  linked→replayed (r ∷ rs) g fits l =
      let before = tail-IsLinked r rs l in
      rw
        (
          linked→replayed rs g.1 (omega arith) before,
          (validate_chain_consistency_iff libraries documented (head_state rs) r g.0
                (range rs g.1 before (omega arith))).1
              (linked→acceptable r rs g l (omega arith)),
        )
        (ap some (sym (head_state-eq r g.0)))

  replayed→linked :
      (rs : List StructuralRecord) (s : ChainState)
      → AllGood libraries rs
      → length rs ≤ max_uint64
      → replayed libraries rs ≡ some s
      → IsLinked rs
  unfolding replayed
  replayed→linked [] s g fits h = tt
  replayed→linked (r ∷ rs) s g fits h = elim (Option-cases (replayed libraries rs)) [
    | inl e ↦ absurd (ground arith)
    | inr (q, e) ↦
        let before = replayed→linked rs q g.1 (omega arith) e in
        let at_head = linked→replayed rs g.1 (omega arith) before in
        acceptable→linked r rs g before (
          (validate_chain_consistency_iff libraries documented (head_state rs) r g.0
              (range rs g.1 before (omega arith))).0.0
            (ground arith))
  ]

  -- Good records, fewer than 2 ^ 64, are all accepted from the zero state, in order, exactly when
  -- they form a linked chain; the state that they lead to is the one that the newest record alone
  -- establishes, and its number counts the records.
  pub replayed_iff :
      (rs : List StructuralRecord) (s : ChainState)
      → AllGood libraries rs
      → length rs ≤ max_uint64
      → ((replayed libraries rs ≡ some s) ↔ (IsLinked rs × (s ≡ head_state rs)))
        × (IsLinked rs → (head_state rs).last_sequence ≡ length rs)
  replayed_iff rs s g fits = (
    (
      λ h. let l = replayed→linked rs s g fits h in (l, cc (h, linked→replayed rs g fits l)),
      λ p. linked→replayed rs g fits p.0 ∙ ap some (sym p.1),
    ),
    count rs g,
  )
    where
      count :
          (qs : List StructuralRecord)
          → AllGood libraries qs
          → IsLinked qs
          → (head_state qs).last_sequence ≡ length qs
      count [] good l = refl
      count (r ∷ qs) good l =
          ap (λ (x : ChainState). x.last_sequence) (head_state-eq r good.0)
          ∙ sequence-eq-length r qs l
