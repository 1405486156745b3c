-- ===== src/Prelude/Hex.antt =====
-- encoding/hex: two digits to a byte, in lower case when written, in either case when read; and the
-- order of texts and of byte arrays, byte by byte.
use Prim.Native.Nat.{ℕ, ◌+◌, ◌-◌, ◌*◌, ◌/◌, ◌%◌, ◌<◌}
use mathlib.Core.Path.{◌≡◌, refl}
use mathlib.Core.Logic.{◌≢◌}
use mathlib.Core.Bool.{Bool, true, false, ◌&&◌, ◌||◌}
use mathlib.Core.List.{[], ◌∷◌}
use mathlib.Core.Option.{Option, none, some}
use native.Mathlib.Omega.{arith}
use chain_application.Prelude.Tests.{ltb, leb, ◌==◌, if◌then◌else◌}
use chain_application.Prelude.Lists.{length}
use chain_application.Prelude.Slices.{Bytes, bytes_equal}
use chain_application.Prelude.Sorting.{IsStrict}

-- The digit of a number below 16.
unfoldable pub hex_digit : ℕ → ℕ
hex_digit n = if ltb n 10 then 48 + n else 87 + n

unfoldable pub hex_value : ℕ → Option ℕ
hex_value c =
    if leb 48 c && leb c 57
    then some (c - 48)
    else if leb 97 c && leb c 102
    then some (c - 87)
    else if leb 65 c && leb c 70
    then some (c - 55)
    else none

-- `hex.EncodeToString`.
unfoldable pub encode_hex : Bytes → Bytes
encode_hex [] = []
encode_hex (b ∷ bs) = hex_digit (b / 16) ∷ hex_digit (b % 16) ∷ encode_hex bs

-- The byte of two digits.
unfoldable pub hex_byte : ℕ → ℕ → Option ℕ
hex_byte c d = elim (hex_value c) [
  | none ↦ none
  | some high ↦ elim (hex_value d) [ none ↦ none | some low ↦ some (high * 16 + low) ]
]

abbrev pub joined : Option ℕ → Option Bytes → Option Bytes
joined none rest = none
joined (some b) none = none
joined (some b) (some bs) = some (b ∷ bs)

-- `hex.DecodeString`, which fails at an odd length and at what is no digit.
unfoldable pub decode_hex : Bytes → Option Bytes
decode_hex [] = some []
decode_hex (c ∷ []) = none
decode_hex (c ∷ d ∷ rest) = joined (hex_byte c d) (decode_hex rest)

hex_value-digit : (n : ℕ) → n < 16 → hex_value (hex_digit n) ≡ some n
unfolding hex_value hex_digit
hex_value-digit n h = ground arith

hex_byte-digits : (b : ℕ) → b < 256 → hex_byte (hex_digit (b / 16)) (hex_digit (b % 16)) ≡ some b
unfolding hex_byte
hex_byte-digits b h =
    ground
      (arith, hex_value-digit (b / 16) (omega (arith, h)), hex_value-digit (b % 16) (omega arith))

joined_rest :
    (o : Option ℕ) (rest : Option Bytes) (b : ℕ) (bs : Bytes)
    → joined o rest ≡ some (b ∷ bs)
    → rest ≡ some bs
joined_rest none rest b bs h = absurd (ground arith)
joined_rest (some c) none b bs h = absurd (ground arith)
joined_rest (some c) (some cs) b bs h = ground arith

joined_nonempty : (o : Option ℕ) (rest : Option Bytes) → joined o rest ≢ some []
joined_nonempty none rest h = ground arith
joined_nonempty (some c) none h = ground arith
joined_nonempty (some c) (some cs) h = ground arith

-- Bytes, not numbers at large.
abbrev pub AreBytes : Bytes → Type 0
AreBytes [] = Unit {0}
AreBytes (b ∷ bs) = (b < 256) × AreBytes bs

pub decode_hex-encode_hex : (bs : Bytes) → AreBytes bs → decode_hex (encode_hex bs) ≡ some bs
unfolding decode_hex encode_hex
decode_hex-encode_hex [] h = refl
decode_hex-encode_hex (b ∷ bs) (h, hs) =
    ground (arith, hex_byte-digits b h, decode_hex-encode_hex bs hs)

-- What is read has half the length of the text.
pub length-decode_hex : (s bs : Bytes) → decode_hex s ≡ some bs → length s ≡ length bs + length bs
unfolding decode_hex
length-decode_hex [] bs h = ground arith
length-decode_hex (c ∷ []) bs h = absurd (ground arith)
length-decode_hex (c ∷ d ∷ rest) [] h = absurd (joined_nonempty (hex_byte c d) (decode_hex rest) h)
length-decode_hex (c ∷ d ∷ rest) (b ∷ bs) h =
    omega (arith, length-decode_hex rest bs (joined_rest (hex_byte c d) (decode_hex rest) b bs h))

-- `bytes.Compare(a, b) < 0`, and Go's `<` on strings.
unfoldable pub bytes_less : Bytes → Bytes → Bool
bytes_less xs [] = false
bytes_less [] (y ∷ ys) = true
bytes_less (x ∷ xs) (y ∷ ys) = ltb x y || (x == y && bytes_less xs ys)

bytes_less-asym : (xs ys : Bytes) → bytes_less xs ys ≡ true → bytes_less ys xs ≡ false
unfolding bytes_less
bytes_less-asym [] [] h = refl
bytes_less-asym (x ∷ xs) [] h = absurd (ground arith)
bytes_less-asym [] (y ∷ ys) h = refl
bytes_less-asym (x ∷ xs) (y ∷ ys) h = ground (arith, bytes_less-asym xs ys)

bytes_less-split :
    (xs ys zs : Bytes)
    → bytes_less xs zs ≡ true
    → bytes_less ys zs ≡ false
    → bytes_less ys xs ≡ false
unfolding bytes_less
bytes_less-split [] ys zs h k = refl
bytes_less-split (x ∷ xs) [] [] h k = absurd (ground arith)
bytes_less-split (x ∷ xs) [] (z ∷ zs) h k = absurd (ground arith)
bytes_less-split (x ∷ xs) (y ∷ ys) [] h k = absurd (ground arith)
bytes_less-split (x ∷ xs) (y ∷ ys) (z ∷ zs) h k = ground (arith, bytes_less-split xs ys zs)

pub bytes_less-IsStrict : IsStrict bytes_less
bytes_less-IsStrict = record { asym = bytes_less-asym; split = bytes_less-split }

-- Two byte arrays, neither below the other, are the same.
pub bytes_less-connex :
    (xs ys : Bytes) → bytes_less xs ys ≡ false → bytes_less ys xs ≡ false → bytes_equal xs ys ≡ true
unfolding bytes_less bytes_equal
bytes_less-connex [] [] h k = refl
bytes_less-connex [] (y ∷ ys) h k = absurd (ground arith)
bytes_less-connex (x ∷ xs) [] h k = absurd (ground arith)
bytes_less-connex (x ∷ xs) (y ∷ ys) h k = ground (arith, bytes_less-connex xs ys)
