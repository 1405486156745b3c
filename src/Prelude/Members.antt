-- ===== src/Prelude/Members.antt =====
-- Membership in lists, with the proof that an element stands there kept.
use mathlib.Core.Path.{◌≡◌, refl, subst}
use mathlib.Core.Logic.{◌↔◌, ◌⊎◌, inl, inr, ⊎_elim}
use mathlib.Core.Bool.{Bool, true}
use mathlib.Core.List.{List, [], ◌∷◌, ◌++◌, Memᴰ}
use mathlib.Core.List.Memᴰ
use native.Mathlib.Omega.{arith}
use chain_application.Prelude.Tests.{Bool-cases}
use chain_application.Prelude.Lists.{filter}

module _ {ℓ} {A : Type ℓ} where
  pub mem-cons : (a x : A) (xs : List A) → Memᴰ a (x ∷ xs) ↔ ((a ≡ x) ⊎ Memᴰ a xs)
  mem-cons a x xs = (Memᴰ.cases_cons, ⊎_elim Memᴰ.head Memᴰ.tail)

  pub mem-append : (a : A) (xs ys : List A) → Memᴰ a (xs ++ ys) ↔ (Memᴰ a xs ⊎ Memᴰ a ys)
  mem-append a xs ys = (Memᴰ.append_cases xs, ⊎_elim (Memᴰ.append_left ys) (Memᴰ.append_right xs))

  pub mem-filter :
      (p : A → Bool) (a : A) (xs : List A) → Memᴰ a (filter p xs) ↔ (Memᴰ a xs × (p a ≡ true))
  mem-filter p a [] = (λ m. absurd (Memᴰ.not-nil m), λ h. absurd (Memᴰ.not-nil h.0))
  mem-filter p a (x ∷ xs) = elim (Bool-cases (p x)) [
    | inl t ↦
        rw t (ground (arith, t, mem-filter p a xs, mem-cons a x xs, mem-cons a x (filter p xs)))
    | inr t ↦ rw t (ground (arith, t, mem-filter p a xs, mem-cons a x xs))
  ]

-- The elements of all the lists that a function gives, in order.
abbrev pub flat_map {ℓ κ} : {A : Type ℓ} {B : Type κ} → (A → List B) → List A → List B
flat_map f [] = []
flat_map f (x ∷ xs) = f x ++ flat_map f xs

module _ {ℓ κ} {A : Type ℓ} {B : Type κ} where
  pub mem-flat_map :
      (f : A → List B) (b : B) (xs : List A)
      → Memᴰ b (flat_map f xs) ↔ ((x : A) × Memᴰ x xs × Memᴰ b (f x))
  mem-flat_map f b xs = (forth xs, λ (x, m, n). back xs x m n)
    where
      forth : (xs : List A) → Memᴰ b (flat_map f xs) → (x : A) × Memᴰ x xs × Memᴰ b (f x)
      forth [] m = absurd (Memᴰ.not-nil m)
      forth (x ∷ xs) m = elim (Memᴰ.append_cases (f x) m) [
        | inl n ↦ (x, Memᴰ.head refl, n)
        | inr n ↦ let (y, k, l) = forth xs n in (y, Memᴰ.tail k, l)
      ]

      back : (xs : List A) (x : A) → Memᴰ x xs → Memᴰ b (f x) → Memᴰ b (flat_map f xs)
      back [] x m n = absurd (Memᴰ.not-nil m)
      back (y ∷ xs) x m n = elim (Memᴰ.cases_cons m) [
        | inl e ↦ Memᴰ.append_left (flat_map f xs) (subst (λ z. Memᴰ b (f z)) e n)
        | inr k ↦ Memᴰ.append_right (f y) (back xs x k n)
      ]
