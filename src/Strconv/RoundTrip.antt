-- ===== src/Strconv/RoundTrip.antt =====
-- A printed id is read back.
use Prim.Native.Char.{code}
use Prim.Native.String.{String, [], ◌∷◌}
use text.Mathlib.TextLemmas.{cons≢nil}
use banana_talk.Prelude.{
  ℕ, zero, suc, ◌+◌, ◌-◌, ◌*◌, ◌/◌, ◌%◌, ◌≤◌, ◌<◌, pos, ◌≡◌, ◌≢◌, refl, sym, ap, ◌∙◌, true, false,
  leb, ltb, ◌==ℕ◌, Bool-cases, inl, inr, arith,
}
use banana_talk.Strconv.{
  parsed, max_uint64, max_int64, scan, parse_uint, with_sign, parse_int, digit, decimal_onto,
  decimal,
}

pub code-digit : (n : ℕ) → code (digit n) ≡ 48 + n % 10
unfolding digit
code-digit n = refl

scan-digit :
    (m n : ℕ) (rest : String)
    → m * 10 + n % 10 ≤ max_uint64
    → scan m (digit n ∷ rest) ≡ scan (m * 10 + n % 10) rest
unfolding scan
scan-digit m n rest fits =
    let low : leb 48 (48 + n % 10) ≡ true = ground arith in
    let high : leb (48 + n % 10) 57 ≡ true = ground (arith) in
    let back : 48 + n % 10 - 48 ≡ n % 10 = omega arith in
    let small : ltb max_uint64 (m * 10 + n % 10) ≡ false = ground (arith, fits) in
    rw (code-digit n) (rw (low, high) (rw back (rw small refl)))

-- The digit after those of a tenth of the number.
scan-last :
    (m n : ℕ) (rest : String) → m ≡ n / 10 → n ≤ max_uint64 → scan m (digit n ∷ rest) ≡ scan n rest
scan-last m n rest e fits =
    scan-digit m n rest (omega (arith, e, fits)) ∙ ap (λ k. scan k rest) (omega (arith, e))

pow : ℕ → ℕ
pow zero = 10
pow (suc k) = 10 * pow k

scan-decimal_onto :
    (k n : ℕ) (rest : String)
    → n < pow k
    → n ≤ max_uint64
    → scan 0 (decimal_onto k n rest) ≡ scan n rest
unfolding decimal_onto pow
scan-decimal_onto zero n rest h fits = scan-last 0 n rest (omega (arith, h)) fits
scan-decimal_onto (suc k) n rest h fits = elim (Bool-cases (ltb n 10)) [
  | inl small ↦ rw small (scan-last 0 n rest (ground (arith, small)) fits)
  | inr large ↦ rw large (
      scan-decimal_onto k (n / 10) (digit n ∷ rest) (omega (arith, h)) (omega (arith, fits))
      ∙ scan-last (n / 10) n rest refl fits)
]

-- A text that starts with a digit.
IsNumeral : String → Type 0
IsNumeral s = (n : ℕ) × (rest : String) × (s ≡ (digit n ∷ rest))

decimal_onto-IsNumeral : (k n : ℕ) (rest : String) → IsNumeral (decimal_onto k n rest)
unfolding decimal_onto IsNumeral
decimal_onto-IsNumeral zero n rest = (n, rest, refl)
decimal_onto-IsNumeral (suc k) n rest = elim (Bool-cases (ltb n 10)) [
  | inl small ↦ rw small (n, rest, refl)
  | inr large ↦ rw large (decimal_onto-IsNumeral k (n / 10) (digit n ∷ rest))
]

parse_int-IsNumeral : (s : String) → IsNumeral s → parse_int s ≡ with_sign false (scan 0 s)
unfolding parse_int parse_uint IsNumeral
parse_int-IsNumeral s (n, rest, e) =
    let plus : (48 + n % 10 ==ℕ 43) ≡ false = ground arith in
    let minus : (48 + n % 10 ==ℕ 45) ≡ false = ground arith in
    rw e (rw (code-digit n) (rw (plus, minus) refl))

pub decimal-ne-nil : (n : ℕ) → decimal n ≢ ""
unfolding decimal IsNumeral
decimal-ne-nil n e =
    let (m, rest, f) = decimal_onto-IsNumeral 19 n [] in
    cons≢nil {x = digit m} {xs = rest} (sym f ∙ e)

-- The print of an id of 64 bits is read back as that id.
pub parse_int-decimal : (n : ℕ) → n ≤ max_int64 → parse_int (decimal n) ≡ parsed (pos n)
unfolding decimal pow with_sign scan
parse_int-decimal n h =
    let fits : ltb max_int64 n ≡ false = ground (arith, h) in
    parse_int-IsNumeral (decimal_onto 19 n []) (decimal_onto-IsNumeral 19 n [])
    ∙ ap (with_sign false) (scan-decimal_onto 19 n [] (omega (arith, h)) (omega (arith, h)))
    ∙ rw fits refl
