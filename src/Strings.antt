-- ===== src/Strings.antt =====
-- What the backend calls of Go's `strings` package. Lengths and positions count bytes.
mod Parts
pub mod Trim
use Prim.Native.Char.{Char, code}
use Prim.Native.String.{String, [], ◌∷◌, len, slice}
use text.Mathlib.Text.{starts_with, get?}
use mathlib.Core.List.{List}
use banana_talk.Prelude.{ℕ, Bool, false, ◌&&◌, ◌||◌, Option, ◌==ℕ◌, leb, if◌then◌else◌}
use Parts.{one_part, next_part, grow_part}

-- `unicode.IsSpace`
abbrev pub is_space : Char → Bool
is_space c =
    let n = code c in
    (leb 9 n && leb n 13)
    || n ==ℕ 32
    || n ==ℕ 133
    || n ==ℕ 160
    || n ==ℕ 5760
    || (leb 8192 n && leb n 8202)
    || n ==ℕ 8232
    || n ==ℕ 8233
    || n ==ℕ 8239
    || n ==ℕ 8287
    || n ==ℕ 12288

abbrev pub trim_left : String → String
trim_left [] = []
trim_left (c ∷ s) = let rest = trim_left s in if is_space c then rest else c ∷ s

-- A character in front of a text, unless that would be white space alone.
abbrev pub put : Char → String → String
put c [] = if is_space c then [] else c ∷ []
put c (d ∷ s) = c ∷ d ∷ s

abbrev pub trim_right : String → String
trim_right [] = []
trim_right (c ∷ s) = put c (trim_right s)

-- `strings.TrimSpace`
abbrev pub trim_space : String → String
trim_space s = trim_right (trim_left s)

-- `strings.TrimPrefix`
abbrev pub trim_prefix : String → String → String
trim_prefix s prefix = if starts_with s prefix then slice s (len prefix) (len s) else s

-- `s[:n]` for a text of more than n bytes; `none` is a text that is not UTF-8, since the cut is
-- inside a character.
abbrev pub cut_at : ℕ → String → Option String
cut_at n s = get? s 0 n

-- `strings.Split(s, "/")`
abbrev pub split_slash : String → List String
split_slash [] = one_part
split_slash (c ∷ s) =
    let parts = split_slash s in
    if code c ==ℕ 47 then next_part parts else grow_part (λ part. c ∷ part) parts

-- `strings.Contains(s, "/")`
abbrev pub has_slash : String → Bool
has_slash [] = false
has_slash (c ∷ s) = (code c ==ℕ 47) || has_slash s
