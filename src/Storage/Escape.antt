-- ===== src/Storage/Escape.antt =====
-- The escaped key in the address of an object of Google Cloud Storage.
use Prim.Native.Char.{code}
use Prim.Native.String.{String, [], ◌∷◌}
use banana_talk.Prelude.{
  ℕ, ◌+◌, ◌/◌, ◌%◌, ◌<◌, ◌≡◌, refl, inl, inr, true, false, ◌==ℕ◌, ==ℕ_iff, ltb, Bool-cases, arith,
}
use banana_talk.Strings.{has_slash}
use banana_talk.Storage.{ascii, is_kept, hex_digit, escape_byte, escape_char, path_escape}

is_kept-slash : (n : ℕ) → is_kept n ≡ true → (n ==ℕ 47) ≡ false
unfolding is_kept
is_kept-slash n h = elim (Bool-cases (n ==ℕ 47)) [
  | inl slash ↦ let e = (==ℕ_iff n 47).0 slash in absurd (cc (rw e at h))
  | inr other ↦ other
]

hex_digit-slash : (n : ℕ) → n < 16 → (code (hex_digit n) ==ℕ 47) ≡ false
unfolding hex_digit ascii
hex_digit-slash n h = elim (Bool-cases (ltb n 10)) [
  | inl small ↦ rw small (ground (arith, h))
  | inr large ↦ rw large (ground (arith, h))
]

has_slash-escape_byte :
    (n : ℕ) (s : String) → n < 256 → has_slash s ≡ false → has_slash (escape_byte n s) ≡ false
unfolding escape_byte ascii
has_slash-escape_byte n s h k =
    rw (hex_digit-slash (n / 16) (omega (arith, h)), hex_digit-slash (n % 16) (omega arith)) k

has_slash-escape_char :
    (n : ℕ) (s : String) → has_slash s ≡ false → has_slash (escape_char n s) ≡ false
unfolding escape_char
has_slash-escape_char n s k = elim (Bool-cases (ltb n 128)) [
  | inl one ↦ rw one (has_slash-escape_byte n s (ground (arith, one)) k)
  | inr more ↦
      let s1 = escape_byte (128 + n % 64) s in
      let s2 = escape_byte (128 + n / 64 % 64) s1 in
      let k1 = has_slash-escape_byte (128 + n % 64) s (omega arith) k in
      let k2 = has_slash-escape_byte (128 + n / 64 % 64) s1 (omega arith) k1 in
      rw more (elim (Bool-cases (ltb n 2048)) [
        | inl two ↦ rw two (has_slash-escape_byte (192 + n / 64) s1 (ground (arith, two)) k1)
        | inr many ↦ rw many (elim (Bool-cases (ltb n 65536)) [
          | inl three ↦
              rw three (has_slash-escape_byte (224 + n / 4096) s2 (ground (arith, three)) k2)
          | inr four ↦ rw four (
              has_slash-escape_byte (240 + n / 262144 % 8) (escape_byte (128 + n / 4096 % 64) s2)
                (omega arith) (has_slash-escape_byte (128 + n / 4096 % 64) s2 (omega arith) k2))
        ])
      ])
]

-- An escaped key is one segment of a path, whatever characters it has: it contains no slash.
pub has_slash-path_escape : (key : String) → has_slash (path_escape key) ≡ false
unfolding path_escape
has_slash-path_escape [] = refl
has_slash-path_escape (c ∷ key) = elim (Bool-cases (is_kept (code c))) [
  | inl kept ↦ rw kept (rw (is_kept-slash (code c) kept) (has_slash-path_escape key))
  | inr other ↦
      rw other (has_slash-escape_char (code c) (path_escape key) (has_slash-path_escape key))
]
