-- ===== src/Prelude/Sorting.antt =====
-- `sort.Slice` with a strict order: a sorted list of the same elements. Elements that the order does
-- not tell apart may come out in any order in Go; here the later one comes first.
use mathlib.Core.Path.{◌≡◌}
use mathlib.Core.Logic.{◌↔◌, ◌⊎◌, inl, inr}
use mathlib.Core.Bool.{Bool, true, false}
use mathlib.Core.List.{List, [], ◌∷◌, Memᴰ}
use native.Mathlib.Omega.{arith}
use chain_application.Prelude.Tests.{if◌then◌else◌, Bool-cases}
use chain_application.Prelude.Members.{mem-cons}

module _ {ℓ} {A : Type ℓ} where
  unfoldable pub insert_by : (A → A → Bool) → A → List A → List A
  insert_by less x [] = x ∷ []
  insert_by less x (y ∷ ys) = if less x y then x ∷ y ∷ ys else y ∷ insert_by less x ys

  unfoldable pub sort_by : (A → A → Bool) → List A → List A
  sort_by less [] = []
  sort_by less (x ∷ xs) = insert_by less x (sort_by less xs)

  mem-insert_by :
      (less : A → A → Bool) (a x : A) (ys : List A)
      → Memᴰ a (insert_by less x ys) ↔ ((a ≡ x) ⊎ Memᴰ a ys)
  unfolding insert_by
  mem-insert_by less a x [] = mem-cons a x []
  mem-insert_by less a x (y ∷ ys) = elim (Bool-cases (less x y)) [
    | inl t ↦ rw t (mem-cons a x (y ∷ ys))
    | inr t ↦ rw t (
        ground
          (arith, mem-insert_by less a x ys, mem-cons a y ys, mem-cons a y (insert_by less x ys)))
  ]

  -- Sorting keeps the elements.
  pub mem-sort_by :
      (less : A → A → Bool) (a : A) (xs : List A) → Memᴰ a (sort_by less xs) ↔ Memᴰ a xs
  unfolding sort_by
  mem-sort_by less a [] = (λ m. m, λ m. m)
  mem-sort_by less a (x ∷ xs) =
      ground
        (arith, mem-insert_by less a x (sort_by less xs), mem-sort_by less a xs, mem-cons a x xs)

  -- Every element stands before those that are not below it.
  abbrev pub NoneBelow : (A → A → Bool) → A → List A → Type 0
  NoneBelow less x [] = Unit {0}
  NoneBelow less x (y ∷ ys) = (less y x ≡ false) × NoneBelow less x ys

  abbrev pub IsSortedBy : (A → A → Bool) → List A → Type 0
  IsSortedBy less [] = Unit {0}
  IsSortedBy less (x ∷ xs) = NoneBelow less x xs × IsSortedBy less xs

  -- A strict order in which an element is below another or not below what is below that.
  pub record IsStrict (less : A → A → Bool) : Type ℓ where
    pub asym : (x y : A) → less x y ≡ true → less y x ≡ false
    pub split : (x y z : A) → less x z ≡ true → less y z ≡ false → less y x ≡ false

  NoneBelow-trans :
      (less : A → A → Bool)
      → IsStrict less
      → (x y : A) (ys : List A) → less x y ≡ true
      → NoneBelow less y ys
      → NoneBelow less x ys
  NoneBelow-trans less o x y [] h n = tt
  NoneBelow-trans less o x y (z ∷ zs) h (n, ns) =
      (o.split x z y h n, NoneBelow-trans less o x y zs h ns)

  NoneBelow-insert_by :
      (less : A → A → Bool) (x y : A) (ys : List A)
      → less x y ≡ false
      → NoneBelow less y ys
      → NoneBelow less y (insert_by less x ys)
  unfolding insert_by
  NoneBelow-insert_by less x y [] h n = (h, tt)
  NoneBelow-insert_by less x y (z ∷ zs) h (n, ns) = elim (Bool-cases (less x z)) [
    | inl t ↦ rw t (h, (n, ns))
    | inr t ↦ rw t (n, NoneBelow-insert_by less x y zs h ns)
  ]

  insert_by-IsSortedBy :
      (less : A → A → Bool)
      → IsStrict less
      → (x : A) (ys : List A) → IsSortedBy less ys
      → IsSortedBy less (insert_by less x ys)
  unfolding insert_by
  insert_by-IsSortedBy less o x [] s = (tt, tt)
  insert_by-IsSortedBy less o x (y ∷ ys) (n, s) = elim (Bool-cases (less x y)) [
    | inl t ↦ rw t ((o.asym x y t, NoneBelow-trans less o x y ys t n), (n, s))
    | inr t ↦ rw t (NoneBelow-insert_by less x y ys t n, insert_by-IsSortedBy less o x ys s)
  ]

  pub sort_by-IsSortedBy :
      (less : A → A → Bool) → IsStrict less → (xs : List A) → IsSortedBy less (sort_by less xs)
  unfolding sort_by
  sort_by-IsSortedBy less o [] = tt
  sort_by-IsSortedBy less o (x ∷ xs) =
      insert_by-IsSortedBy less o x (sort_by less xs) (sort_by-IsSortedBy less o xs)
