-- ===== src/Ledger/Codec/Keys.antt =====
-- The exact-key test, against equality of the two sets of keys.
use chain_application.Prelude.{
  ℕ, suc, ◌+◌, ◌≤◌, ◌≡◌, refl, ap, sym, ◌∙◌, ◌↔◌, List, [], ◌∷◌, Bool, true, false, some, arith,
  length, ◌==◌, if◌then◌else◌, inl, inr, Option-cases,
}
use chain_application.Ledger.Codec.{
  GenericMap, keys, contains, expected_set, all_contained, has_exact_keys,
}

-- No key comes twice, as in every Go map.
abbrev pub IsDistinct : List ℕ → Type 0
IsDistinct [] = Unit
IsDistinct (k ∷ ks) = (contains k ks ≡ false) × IsDistinct ks

remove : ℕ → List ℕ → List ℕ
remove k [] = []
remove k (j ∷ js) = if k == j then js else j ∷ remove k js

length-remove : (k : ℕ) (ks : List ℕ) → contains k ks ≡ true → length (remove k ks) + 1 ≡ length ks
unfolding contains remove
length-remove k [] h = ground arith
length-remove k (j ∷ js) h = ground (arith, length-remove k js)

contains-remove_ne :
    (k j : ℕ) (ks : List ℕ) → (j == k) ≡ false → contains j (remove k ks) ≡ contains j ks
unfolding contains remove
contains-remove_ne k j [] h = refl
contains-remove_ne k j (i ∷ is) h = ground (arith, contains-remove_ne k j is)

contains_ne :
    (k j : ℕ) (ks : List ℕ) → contains k ks ≡ false → contains j ks ≡ true → (j == k) ≡ false
contains_ne k j ks h p = ground arith

all_contained-remove :
    (k : ℕ) (ks ys : List ℕ)
    → contains k ks ≡ false
    → all_contained ks ys ≡ true
    → all_contained ks (remove k ys) ≡ true
unfolding contains all_contained
all_contained-remove k [] ys h p = refl
all_contained-remove k (j ∷ js) ys h p =
    ground (arith, contains-remove_ne k j ys, all_contained-remove k js ys)

-- The pigeonhole: distinct keys among as few expected ones leave none of those out.
pub contains_of_all_contained :
    (ks ys : List ℕ) (y : ℕ)
    → IsDistinct ks
    → all_contained ks ys ≡ true
    → length ys ≤ length ks
    → contains y ys ≡ true
    → contains y ks ≡ true
unfolding contains all_contained
contains_of_all_contained [] [] y d a l h = h
contains_of_all_contained [] (z ∷ zs) y d a l h = absurd (omega arith)
contains_of_all_contained (k ∷ ks) ys y d a l h = ground (
  arith,
  length-remove k ys,
  contains-remove_ne k y ys,
  all_contained-remove k ks ys,
  contains_of_all_contained ks (remove k ys) y,
)

contains_of_mem :
    (ks ys : List ℕ) (k : ℕ)
    → all_contained ks ys ≡ true
    → contains k ks ≡ true
    → contains k ys ≡ true
unfolding contains all_contained
contains_of_mem [] ys k a h = ground arith
contains_of_mem (j ∷ js) ys k a h = ground (arith, contains_of_mem js ys k)

-- The set that the loop builds has the keys that it started with and those of the list.
contains-expected_set :
    (seen ks : List ℕ) (e : List ℕ) (k : ℕ)
    → expected_set seen ks ≡ some e
    → (contains k seen ≡ false → contains k ks ≡ contains k e)
      × (contains k seen ≡ true → contains k e ≡ true)
unfolding expected_set contains
contains-expected_set seen [] e k h = (ground arith, ground arith)
contains-expected_set seen (j ∷ js) e k h = (
  ground (arith, contains-expected_set (j ∷ seen) js e k),
  ground (arith, contains-expected_set (j ∷ seen) js e k),
)

length-expected_set :
    (seen ks e : List ℕ) → expected_set seen ks ≡ some e → length e ≡ length seen + length ks
unfolding expected_set
length-expected_set seen [] e h = ground arith
length-expected_set seen (j ∷ js) e h = ground (arith, length-expected_set (j ∷ seen) js e)

expected_set_new :
    (seen ks e : List ℕ) (k : ℕ)
    → expected_set seen ks ≡ some e
    → contains k ks ≡ true
    → contains k seen ≡ false
unfolding expected_set contains
expected_set_new seen [] e k h p = ground arith
expected_set_new seen (j ∷ js) e k h p = ground (arith, expected_set_new (j ∷ seen) js e k)

expected_set-IsDistinct : (seen ks e : List ℕ) → expected_set seen ks ≡ some e → IsDistinct ks
unfolding expected_set contains
expected_set-IsDistinct seen [] e h = tt
expected_set-IsDistinct seen (j ∷ js) e h = (
  ground (arith, expected_set_new (j ∷ seen) js e j),
  expected_set-IsDistinct (j ∷ seen) js e (ground arith),
)

-- A list of distinct keys that is disjoint from the set is added to it.
expected_set_total :
    (seen ks : List ℕ)
    → IsDistinct ks
    → ((k : ℕ) → contains k ks ≡ true → contains k seen ≡ false)
    → (e : List ℕ) × (expected_set seen ks ≡ some e)
unfolding expected_set contains
expected_set_total seen [] d h = (seen, refl)
expected_set_total seen (j ∷ js) d h =
    let (e, p) = expected_set_total (j ∷ seen) js d.1 (λ k q. ground (arith, h k)) in
    (e, ground (arith, h j))

all_contained_of :
    (ks ys : List ℕ)
    → ((k : ℕ) → contains k ks ≡ true → contains k ys ≡ true)
    → all_contained ks ys ≡ true
unfolding all_contained contains
all_contained_of [] ys h = refl
all_contained_of (j ∷ js) ys h =
    ground (arith, h j, all_contained_of js ys (λ k q. ground (arith, h k)))

length-le_of_all_contained :
    (ks ys : List ℕ) → IsDistinct ks → all_contained ks ys ≡ true → length ks ≤ length ys
unfolding contains all_contained
length-le_of_all_contained [] ys d a = omega arith
length-le_of_all_contained (k ∷ ks) ys d a = ground (
  arith,
  length-remove k ys,
  all_contained-remove k ks ys,
  length-le_of_all_contained ks (remove k ys),
)

length-keys : {Any : Type 0} (m : GenericMap Any) → length (keys m) ≡ length m
length-keys [] = refl
length-keys (e ∷ m) = ap suc (length-keys m)

Bool-eq : (a b : Bool) → (a ≡ true → b ≡ true) → (b ≡ true → a ≡ true) → a ≡ b
Bool-eq true b f g = sym (f refl)
Bool-eq false true f g = g refl
Bool-eq false false f g = refl

module _ {Any : Type 0} (values : GenericMap Any) (ks : List ℕ)
    (distinct : IsDistinct (keys values)) where
  exact_keys→same :
      has_exact_keys values ks ≡ true
      → IsDistinct ks × ((k : ℕ) → contains k (keys values) ≡ contains k ks)
  unfolding has_exact_keys
  exact_keys→same h = elim (Option-cases (expected_set [] ks)) [
    | inl e ↦ absurd (ground arith)
    | inr (s, e) ↦
        let within : all_contained (keys values) s ≡ true = ground arith in
        let size : length s ≤ length (keys values) =
          ground (arith, length-keys values, length-expected_set [] ks s) in
        (
          expected_set-IsDistinct [] ks s e,
          λ k. rw ((contains-expected_set [] ks s k e).0 refl) (
              Bool-eq (contains k (keys values)) (contains k s)
                (contains_of_mem (keys values) s k within)
                (contains_of_all_contained (keys values) s k distinct within size)),
        )
  ]

  same→exact_keys :
      IsDistinct ks
      → ((k : ℕ) → contains k (keys values) ≡ contains k ks)
      → has_exact_keys values ks ≡ true
  unfolding has_exact_keys
  same→exact_keys d same =
      let (s, e) = expected_set_total [] ks d (λ k p. refl) in
      let within : all_contained (keys values) s ≡ true =
        all_contained_of (keys values) s
          (λ k p. sym ((contains-expected_set [] ks s k e).0 refl) ∙ sym (same k) ∙ p) in
      let back : all_contained ks (keys values) ≡ true =
        all_contained_of ks (keys values) (λ k p. same k ∙ p) in
      ground (
        arith,
        length-keys values,
        length-expected_set [] ks s,
        length-le_of_all_contained (keys values) s,
        length-le_of_all_contained ks (keys values),
      )

  -- For a map with distinct keys, the exact-key test passes exactly when the expected keys are
  -- distinct and are the keys of the map.
  pub has_exact_keys_iff :
      (has_exact_keys values ks ≡ true)
      ↔ (IsDistinct ks × ((k : ℕ) → contains k (keys values) ≡ contains k ks))
  has_exact_keys_iff = (exact_keys→same, λ h. same→exact_keys h.0 h.1)
