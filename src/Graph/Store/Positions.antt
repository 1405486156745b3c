-- ===== src/Graph/Store/Positions.antt =====
-- The positions in a list of the elements that pass a test, and reading through them.
use chain_application.Prelude.{
  ℕ, suc, ◌+◌, ◌≡◌, refl, ap, List, [], ◌∷◌, ◌++◌, Bool, ◌&&◌, some, arith, length, get_elem?, set,
  filter, if◌then◌else◌,
}
use chain_application.Graph.Edge.{AttestationEdge}
use chain_application.Graph.Store.{select}

abbrev Edges : Type 0
Edges = List AttestationEdge

-- The positions of the edges that pass, counted from `n`.
unfoldable pub positions : (AttestationEdge → Bool) → ℕ → Edges → List ℕ
positions p n [] = []
positions p n (e ∷ es) = if p e then n ∷ positions p (suc n) es else positions p (suc n) es

pub positions-append :
    (p : AttestationEdge → Bool) (n : ℕ) (es : Edges) (e : AttestationEdge)
    → positions p n (es ++ e ∷ [])
      ≡ (if p e then positions p n es ++ (n + length es) ∷ [] else positions p n es)
unfolding positions
positions-append p n [] e = ground arith
positions-append p n (x ∷ xs) e = ground (arith, positions-append p (suc n) xs e)

-- A write that does not change the test does not change the positions.
pub positions-set :
    (p : AttestationEdge → Bool) (n : ℕ) (es : Edges) (i : ℕ) (old new : AttestationEdge)
    → get_elem? es i ≡ some old
    → p new ≡ p old
    → positions p n (set es i new) ≡ positions p n es
unfolding positions
positions-set p n [] i old new h e = ground arith
positions-set p n (x ∷ xs) ℕ.zero old new h e = ground arith
positions-set p n (x ∷ xs) (suc i) old new h e =
    ground (arith, positions-set p (suc n) xs i old new)

pub get_elem?-middle :
    (pre : Edges) (x : AttestationEdge) (xs : Edges)
    → get_elem? (pre ++ x ∷ xs) (length pre) ≡ some x
get_elem?-middle [] x xs = refl
get_elem?-middle (y ∷ ys) x xs = get_elem?-middle ys x xs

pub snoc-append :
    (pre : Edges) (x : AttestationEdge) (xs : Edges) → (pre ++ x ∷ []) ++ xs ≡ pre ++ x ∷ xs
snoc-append [] x xs = refl
snoc-append (y ∷ ys) x xs = ap (◌∷◌ y) (snoc-append ys x xs)

pub length-snoc : (pre : Edges) (x : AttestationEdge) → length (pre ++ x ∷ []) ≡ suc (length pre)
length-snoc [] x = refl
length-snoc (y ∷ ys) x = ap suc (length-snoc ys x)

select-positions_from :
    (p keep : AttestationEdge → Bool) (pre es : Edges)
    → select (pre ++ es) keep (positions p (length pre) es) ≡ filter (λ e. p e && keep e) es
unfolding select positions
select-positions_from p keep pre [] = refl
select-positions_from p keep pre (e ∷ es) = ground (
  arith,
  get_elem?-middle pre e es,
  snoc-append pre e es,
  length-snoc pre e,
  select-positions_from p keep (pre ++ e ∷ []) es,
)

-- Reading through the positions of the edges that pass one test, and keeping those that pass
-- another, keeps the edges that pass both, in order.
pub select-positions :
    (p keep : AttestationEdge → Bool) (es : Edges)
    → select es keep (positions p 0 es) ≡ filter (λ e. p e && keep e) es
select-positions p keep es = select-positions_from p keep [] es
