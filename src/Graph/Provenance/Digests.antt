-- ===== src/Graph/Provenance/Digests.antt =====
-- The deduplicated digests are the same digests, strictly ascending.
use chain_application.Prelude.{
  ◌≡◌, subst, ◌↔◌, ◌⊎◌, inl, inr, arith, Bytes, List, [], ◌∷◌, true, bytes_equal, bytes_equal→eq,
  bytes_less, bytes_less-IsStrict, bytes_less-connex, sort_by, mem-sort_by, NoneBelow, IsSortedBy,
  sort_by-IsSortedBy, Memᴰ, mem-cons, Bool-cases,
}
use chain_application.Graph.Provenance.{new_after, without_repeats, deduplicate_digests}

-- Each digest is below the next.
abbrev pub AscendsFrom : Bytes → List Bytes → Type 0
AscendsFrom d [] = Unit {0}
AscendsFrom d (e ∷ es) = (bytes_less d e ≡ true) × AscendsFrom e es

abbrev pub IsAscending : List Bytes → Type 0
IsAscending [] = Unit {0}
IsAscending (d ∷ ds) = AscendsFrom d ds

mem-new_after :
    (a d : Bytes) (ds : List Bytes) → ((a ≡ d) ⊎ Memᴰ a (new_after d ds)) ↔ ((a ≡ d) ⊎ Memᴰ a ds)
unfolding new_after
mem-new_after a d [] = (λ h. h, λ h. h)
mem-new_after a d (e ∷ es) = elim (Bool-cases (bytes_equal e d)) [
  | inl same ↦
      rw same (ground (arith, bytes_equal→eq e d same, mem-new_after a e es, mem-cons a e es))
  | inr other ↦
      rw other
        (ground (arith, mem-new_after a e es, mem-cons a e es, mem-cons a e (new_after e es)))
]

new_after-AscendsFrom :
    (d : Bytes) (ds : List Bytes)
    → NoneBelow bytes_less d ds
    → IsSortedBy bytes_less ds
    → AscendsFrom d (new_after d ds)
unfolding new_after
new_after-AscendsFrom d [] n s = tt
new_after-AscendsFrom d (e ∷ es) (n, ns) (m, s) = elim (Bool-cases (bytes_equal e d)) [
  | inl same ↦ rw same (
      subst (λ z. AscendsFrom z (new_after e es)) (bytes_equal→eq e d same)
        (new_after-AscendsFrom e es m s))
  | inr other ↦
      rw other (ground (arith, bytes_less-connex e d, other), new_after-AscendsFrom e es m s)
]

without_repeats-IsAscending :
    (ds : List Bytes) → IsSortedBy bytes_less ds → IsAscending (without_repeats ds)
without_repeats-IsAscending [] s = tt
without_repeats-IsAscending (d ∷ ds) (n, s) = new_after-AscendsFrom d ds n s

mem-without_repeats : (a : Bytes) (ds : List Bytes) → Memᴰ a (without_repeats ds) ↔ Memᴰ a ds
mem-without_repeats a [] = (λ m. m, λ m. m)
mem-without_repeats a (d ∷ ds) =
    ground (arith, mem-new_after a d ds, mem-cons a d ds, mem-cons a d (new_after d ds))

-- The deduplicated digests are those given, each once, in ascending order.
pub deduplicate_digests-IsAscending :
    (digests : List Bytes)
    → IsAscending (deduplicate_digests digests)
      × ((a : Bytes) → Memᴰ a (deduplicate_digests digests) ↔ Memᴰ a digests)
unfolding deduplicate_digests
deduplicate_digests-IsAscending digests = (
  without_repeats-IsAscending (sort_by bytes_less digests)
      (sort_by-IsSortedBy bytes_less bytes_less-IsStrict digests),
  λ a.
      ground (
        arith,
        mem-without_repeats a (sort_by bytes_less digests),
        mem-sort_by bytes_less a digests,
      ),
)
