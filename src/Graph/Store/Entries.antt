-- ===== src/Graph/Store/Entries.antt =====
-- The digest map as the digests of the cells with their addresses, and lookups through it.
use chain_application.Prelude.{
  ℕ, zero, suc, ◌+◌, ◌≡◌, refl, ap, Bytes, List, [], ◌∷◌, ◌++◌, true, Option, none, some, arith,
  length, get_elem?, set, bytes_equal, lookup, if◌then◌else◌, Bool-cases, inl, inr,
}
use chain_application.Graph.Edge.{AttestationEdge}

abbrev Edges : Type 0
Edges = List AttestationEdge

unfoldable pub entries : ℕ → Edges → List (Bytes × ℕ)
entries n [] = []
entries n (e ∷ es) = (e.record_digest, n) ∷ entries (suc n) es

-- The first edge with the digest, and where it stands.
unfoldable pub find_from : ℕ → Bytes → Edges → Option (ℕ × AttestationEdge)
find_from n d [] = none
find_from n d (e ∷ es) =
    if bytes_equal e.record_digest d then some (n, e) else find_from (suc n) d es

pub entries-append :
    (n : ℕ) (es : Edges) (e : AttestationEdge)
    → entries n (es ++ e ∷ []) ≡ entries n es ++ (e.record_digest, n + length es) ∷ []
unfolding entries
entries-append n [] e = ground arith
entries-append n (x ∷ xs) e = ground (arith, entries-append (suc n) xs e)

pub entries-set :
    (n : ℕ) (es : Edges) (i : ℕ) (old new : AttestationEdge)
    → get_elem? es i ≡ some old
    → new.record_digest ≡ old.record_digest
    → entries n (set es i new) ≡ entries n es
unfolding entries
entries-set n [] i old new h e = refl
entries-set n (x ∷ xs) zero old new h e = ground arith
entries-set n (x ∷ xs) (suc i) old new h e = ground (arith, entries-set (suc n) xs i old new)

pub length-entries : (n : ℕ) (es : Edges) → length (entries n es) ≡ length es
unfolding entries
length-entries n [] = refl
length-entries n (e ∷ es) = ap suc (length-entries (suc n) es)

-- Looking a digest up finds the address of the first edge with it.
pub lookup-entries :
    (d : Bytes) (n : ℕ) (es : Edges)
    → lookup d (entries n es) ≡ elim (find_from n d es) [ none ↦ none | some (a, e) ↦ some a ]
unfolding lookup entries find_from
lookup-entries d n [] = refl
lookup-entries d n (e ∷ es) = ground (arith, lookup-entries d (suc n) es)

-- What is found stands at its address and has the digest.
pub find_from_sound :
    (n : ℕ) (d : Bytes) (es : Edges) (a : ℕ) (e : AttestationEdge)
    → find_from n d es ≡ some (a, e)
    → (i : ℕ) × (a ≡ n + i) × (get_elem? es i ≡ some e) × (bytes_equal e.record_digest d ≡ true)
unfolding find_from
find_from_sound n d [] a e h = ground arith
find_from_sound n d (x ∷ xs) a e h = elim (Bool-cases (bytes_equal x.record_digest d)) [
  | inl same ↦ (0, ground arith, ground arith, ground arith)
  | inr other ↦
      let (i, at, held, same) = find_from_sound (suc n) d xs a e (ground arith) in
      (suc i, omega arith, held, same)
]
