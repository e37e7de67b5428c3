-- ===== src/Strconv/Range.antt =====
-- The range of the numbers that are read.
use Prim.Native.String.{[], ◌∷◌}
use Prim.Native.Char.{code}
use banana_talk.Prelude.{
  zero, suc, ◌≤◌, ℤ, pos, negsuc, String, inl, inr, Bool, true, false, ltb, ◌==ℕ◌, Bool-cases,
  arith,
}
use banana_talk.Strconv.{
  Unsigned, unsigned, no_number, too_large, parse_uint, with_sign, parse_int, number, max_int64,
}

-- An integer of 64 bits.
abbrev pub IsSmall : ℤ → Type 0
IsSmall (pos n) = n ≤ max_int64
IsSmall (negsuc n) = n ≤ max_int64

with_sign-IsSmall : (negative : Bool) (x : Unsigned) → IsSmall (number (with_sign negative x))
unfolding with_sign
with_sign-IsSmall negative no_number = omega arith
with_sign-IsSmall true too_large = omega arith
with_sign-IsSmall false too_large = omega arith
with_sign-IsSmall true (unsigned zero) = omega arith
with_sign-IsSmall true (unsigned (suc n)) = elim (Bool-cases (ltb max_int64 n)) [
  | inl over ↦ rw over (omega arith)
  | inr fits ↦ rw fits (ground (arith, fits))
]
with_sign-IsSmall false (unsigned n) = elim (Bool-cases (ltb max_int64 n)) [
  | inl over ↦ rw over (omega arith)
  | inr fits ↦ rw fits (ground (arith, fits))
]

pub parse_int-IsSmall : (s : String) → IsSmall (number (parse_int s))
unfolding parse_int
parse_int-IsSmall [] = omega arith
parse_int-IsSmall (c ∷ s) = elim (Bool-cases (code c ==ℕ 43)) [
  | inl plus ↦ rw plus (with_sign-IsSmall false (parse_uint s))
  | inr other ↦ elim (Bool-cases (code c ==ℕ 45)) [
    | inl minus ↦ rw (other, minus) (with_sign-IsSmall true (parse_uint s))
    | inr digit ↦ rw (other, digit) (with_sign-IsSmall false (parse_uint (c ∷ s)))
  ]
]
