-- ===== src/Strconv.antt =====
-- What backend/admin.go calls of Go's `strconv` package, for integers of 64 bits in base 10, and the
-- decimal print of an id in JSON.
pub mod Range
pub mod RoundTrip
use Prim.Native.Char.{Char, char, code, IsScalar}
use Prim.Native.Nat.{Ordering, compare}
use Prim.Native.String.{String, [], ◌∷◌}
use banana_talk.Prelude.{
  ℕ, zero, suc, ◌+◌, ◌-◌, ◌*◌, ◌/◌, ◌%◌, ◌<◌, ◌≡◌, arith, ℤ, pos, negsuc, Bool, true, false, ◌&&◌,
  ◌==ℕ◌, leb, ltb, if◌then◌else◌,
}

-- The error `ErrRange` comes with the largest or the smallest number.
pub data Parsed : Type 0 where
  parsed : ℤ → Parsed
  bad_syntax : Parsed
  out_of_range : ℤ → Parsed

pub data Unsigned : Type 0 where
  unsigned : ℕ → Unsigned
  no_number too_large : Unsigned

abbrev pub max_uint64 : ℕ
max_uint64 = 18446744073709551615

abbrev pub max_int64 : ℕ
max_int64 = 9223372036854775807

abbrev pub is_digit : Char → Bool
is_digit c = leb 48 (code c) && leb (code c) 57

-- The loop of `ParseUint`, with the number so far; it ends at the first digit that makes the number
-- too large, whatever follows.
unfoldable pub scan : ℕ → String → Unsigned
scan n [] = unsigned n
scan n (c ∷ s) =
    let m = n * 10 + (code c - 48) in
    let rest = scan m s in
    if is_digit c then (if ltb max_uint64 m then too_large else rest) else no_number

parse_uint : String → Unsigned
parse_uint [] = no_number
parse_uint (c ∷ s) = scan 0 (c ∷ s)

-- The end of `ParseInt`.
with_sign : Bool → Unsigned → Parsed
with_sign negative no_number = bad_syntax
with_sign true too_large = out_of_range (negsuc max_int64)
with_sign false too_large = out_of_range (pos max_int64)
with_sign true (unsigned zero) = parsed (pos 0)
with_sign true (unsigned (suc n)) =
    if ltb max_int64 n then out_of_range (negsuc max_int64) else parsed (negsuc n)
with_sign false (unsigned n) =
    if ltb max_int64 n then out_of_range (pos max_int64) else parsed (pos n)

unfoldable pub parse_int : String → Parsed
unfolding with_sign parse_uint
parse_int [] = bad_syntax
parse_int (c ∷ s) =
    if code c ==ℕ 43
    then with_sign false (parse_uint s)
    else (if code c ==ℕ 45
        then with_sign true (parse_uint s)
        else with_sign false (parse_uint (c ∷ s)))

-- The number that `Atoi` returns, also next to an error.
abbrev pub number : Parsed → ℤ
number (parsed n) = n
number bad_syntax = pos 0
number (out_of_range n) = n

pub small-IsScalar : (n : ℕ) → n < 1000 → IsScalar n
small-IsScalar n h = let below : compare n 55296 ≡ Ordering.lt = ground (arith, h) in rw below tt

-- The last decimal digit of a number.
unfoldable pub digit : ℕ → Char
digit n = char (48 + n % 10) (small-IsScalar (48 + n % 10) (omega arith))

-- The decimal digits of a number in front of a text; fuel for all but one of the digits.
unfoldable pub decimal_onto : ℕ → ℕ → String → String
decimal_onto zero n rest = digit n ∷ rest
decimal_onto (suc k) n rest =
    let more = decimal_onto k (n / 10) (digit n ∷ rest) in if ltb n 10 then digit n ∷ rest else more

-- The print of a number of 64 bits, which has at most 20 digits.
unfoldable pub decimal : ℕ → String
decimal n = decimal_onto 19 n []
