-- ===== src/Prelude/Maps.antt =====
-- Go maps keyed by byte sequences: association lists where the program counts or walks the
-- entries, functions where a missing key reads as a zero value.
use mathlib.Core.Path.{◌≡◌, refl}
use mathlib.Core.Bool.{Bool, false, ◌||◌}
use mathlib.Core.List.{List, [], ◌∷◌, ◌++◌}
use mathlib.Core.Option.{Option, none, some}
use native.Mathlib.Omega.{arith}
use chain_application.Prelude.Tests.{if◌then◌else◌}
use chain_application.Prelude.Slices.{Bytes, bytes_equal, bytes_equal_iff}

module _ {ℓ} {V : Type ℓ} where
  unfoldable pub lookup : Bytes → List (Bytes × V) → Option V
  lookup k [] = none
  lookup k ((j, v) ∷ m) = if bytes_equal j k then some v else lookup k m

  unfoldable pub insert : Bytes → V → List (Bytes × V) → List (Bytes × V)
  insert k v [] = (k, v) ∷ []
  insert k v ((j, w) ∷ m) = if bytes_equal j k then (k, v) ∷ m else (j, w) ∷ insert k v m

  -- `m[k] = v` for a map read by key alone.
  unfoldable pub update : (Bytes → V) → Bytes → V → Bytes → V
  update m k v j = if bytes_equal k j then v else m j

  -- Writing under a new key adds an entry at the end.
  pub insert_new :
      (k : Bytes) (v : V) (m : List (Bytes × V))
      → lookup k m ≡ none
      → insert k v m ≡ m ++ (k, v) ∷ []
  unfolding lookup insert
  insert_new k v [] h = refl
  insert_new k v ((j, w) ∷ m) h = ground (arith, insert_new k v m)

  pub lookup-append :
      (k : Bytes) (m : List (Bytes × V)) (j : Bytes) (v : V)
      → lookup k m ≡ none
      → lookup k (m ++ (j, v) ∷ []) ≡ (if bytes_equal j k then some v else none)
  unfolding lookup
  lookup-append k [] j v h = refl
  lookup-append k ((i, w) ∷ m) j v h = ground (arith, lookup-append k m j v)

  pub lookup-append_some :
      (k : Bytes) (m : List (Bytes × V)) (j : Bytes) (v w : V)
      → lookup k m ≡ some w
      → lookup k (m ++ (j, v) ∷ []) ≡ some w
  unfolding lookup
  lookup-append_some k [] j v w h = ground arith
  lookup-append_some k ((i, u) ∷ m) j v w h = ground (arith, lookup-append_some k m j v w)

-- A Go set of keys.
unfoldable pub has_key : Bytes → List Bytes → Bool
has_key k [] = false
has_key k (j ∷ js) = bytes_equal j k || has_key k js

unfoldable pub add_key : Bytes → List Bytes → List Bytes
add_key k ks = if has_key k ks then ks else ks ++ k ∷ []

has_key-append :
    (k j : Bytes) (ks : List Bytes) → has_key k (ks ++ j ∷ []) ≡ (has_key k ks || bytes_equal j k)
unfolding has_key
has_key-append k j [] = ground arith
has_key-append k j (i ∷ is) = ground (arith, has_key-append k j is)

pub has_key-add_key :
    (k j : Bytes) (ks : List Bytes) → has_key k (add_key j ks) ≡ (has_key k ks || bytes_equal j k)
unfolding add_key
has_key-add_key k j ks = ground (arith, has_key-append k j ks, bytes_equal_iff j k)
