-- ===== src/Process/Fallback.antt =====
-- cmd/chain-api/main.go: `boundFallbackMessage`, over `utf8.DecodeLastRuneInString`, a parameter that
-- gives the last rune of a string and its size.
use chain_application.Prelude.{
  ℕ, zero, suc, ◌-◌, ◌≤◌, arith, Bytes, [], ◌∷◌, not, ◌||◌, ◌==◌, length, take, ltb, leb, leb→le,
  if◌then◌else◌, Bool-cases, inl, inr,
}

abbrev pub maximum_fallback_error_bytes : ℕ
maximum_fallback_error_bytes = 1024

abbrev rune_error : ℕ
rune_error = 65533

module _ (decode_last_rune : Bytes → ℕ × ℕ) where
  -- The loop, with the rounds that are left.
  unfoldable pub without_fragment : ℕ → Bytes → Bytes
  without_fragment zero bounded = bounded
  without_fragment (suc rounds) bounded =
      let (last_rune, size) = decode_last_rune bounded in
      let next = without_fragment rounds (take (length bounded - 1) bounded) in
      if not (last_rune == rune_error) || ltb 1 size then bounded else next

  unfoldable pub bound_fallback_message : Bytes → Bytes
  bound_fallback_message message =
      if leb (length message) maximum_fallback_error_bytes
      then message
      else without_fragment 3 (take maximum_fallback_error_bytes message)

  length-take : (n : ℕ) (xs : Bytes) → (length (take n xs) ≤ n) × (length (take n xs) ≤ length xs)
  length-take zero xs = ground arith
  length-take (suc n) [] = ground arith
  length-take (suc n) (x ∷ xs) = ground (arith, length-take n xs)

  length-without_fragment :
      (rounds : ℕ) (bounded : Bytes) → length (without_fragment rounds bounded) ≤ length bounded
  unfolding without_fragment
  length-without_fragment zero bounded = ground arith
  length-without_fragment (suc rounds) bounded = ground (
    arith,
    length-without_fragment rounds (take (length bounded - 1) bounded),
    length-take (length bounded - 1) bounded,
  )

  -- The message never has more bytes than the limit, whatever the decoder answers.
  length-bound_fallback_message : (message : Bytes) → length (bound_fallback_message message) ≤ 1024
  unfolding bound_fallback_message
  length-bound_fallback_message message = elim (Bool-cases (leb (length message) 1024)) [
    | inl short ↦ rw short (leb→le (length message) 1024 short)
    | inr long ↦
        let kept = length-without_fragment 3 (take 1024 message) in
        let cut = (length-take 1024 message).0 in rw long (omega (arith, kept, cut))
  ]
