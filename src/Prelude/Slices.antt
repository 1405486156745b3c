-- ===== src/Prelude/Slices.antt =====
-- Go's byte sequences: strings and arrays as lists of bytes, and slices, which may be nil.
use Prim.Native.Nat.{ℕ}
use Prim.Native.Char.{code}
use Prim.Native.String.{String}
use mathlib.Core.Path.{◌≡◌, refl, ap}
use mathlib.Core.Logic.{◌↔◌}
use mathlib.Core.Bool.{Bool, true, false, ◌&&◌}
use mathlib.Core.List.{List, [], ◌∷◌, ◌++◌}
use mathlib.Core.Option.{Option, none, some}
use native.Mathlib.Omega.{arith}
use chain_application.Prelude.Tests.{◌==◌}
use chain_application.Prelude.Lists.{length, take, drop, take-length, drop-length}

abbrev pub Bytes : Type 0
Bytes = List ℕ

-- A Go slice of bytes: `none` is nil, which differs from an empty slice when it is encoded.
abbrev pub Slice : Type 0
Slice = Option Bytes

-- The bytes that a slice holds; `len` of a nil slice is 0.
abbrev pub contents : Slice → Bytes
contents none = []
contents (some b) = b

-- The bytes of a text of ASCII characters.
abbrev pub ascii : String → Bytes
ascii String.[] = []
ascii (String.◌∷◌ c s) = code c ∷ ascii s

-- `bytes.Equal`, and Go's `==` on strings and byte arrays.
unfoldable pub bytes_equal : Bytes → Bytes → Bool
bytes_equal [] [] = true
bytes_equal [] (y ∷ ys) = false
bytes_equal (x ∷ xs) [] = false
bytes_equal (x ∷ xs) (y ∷ ys) = x == y && bytes_equal xs ys

pub bytes_equal→eq : (xs ys : Bytes) → bytes_equal xs ys ≡ true → xs ≡ ys
unfolding bytes_equal
bytes_equal→eq [] [] h = refl
bytes_equal→eq [] (y ∷ ys) h = ground arith
bytes_equal→eq (x ∷ xs) [] h = ground arith
bytes_equal→eq (x ∷ xs) (y ∷ ys) h = ground (arith, bytes_equal→eq xs ys)

pub bytes_equal_refl : (xs : Bytes) → bytes_equal xs xs ≡ true
unfolding bytes_equal
bytes_equal_refl [] = refl
bytes_equal_refl (x ∷ xs) = ground (arith, bytes_equal_refl xs)

pub bytes_equal_iff : (xs ys : Bytes) → (bytes_equal xs ys ≡ true) ↔ (xs ≡ ys)
bytes_equal_iff xs ys = (bytes_equal→eq xs ys, λ e. rw e (bytes_equal_refl ys))

-- Go's `copy(destination[:], source)`, as the array that it leaves.
unfoldable pub copy : Bytes → Bytes → Bytes
copy destination source = take (length destination) source ++ drop (length source) destination

append-nil : (xs : Bytes) → xs ++ [] ≡ xs
append-nil [] = refl
append-nil (x ∷ xs) = ap (◌∷◌ x) (append-nil xs)

-- A copy of a source of the array's own length is the source.
pub copy_full :
    (destination source : Bytes)
    → length source ≡ length destination
    → copy destination source ≡ source
unfolding copy
copy_full d s e =
    let all : take (length d) s ≡ s = rw (← e) (take-length s) in
    let rest : drop (length s) d ≡ [] = rw e (drop-length d) in rw (all, rest) (append-nil s)
