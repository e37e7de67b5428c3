-- ===== src/Strings/Trim.antt =====
-- What is left of a text without its prefix.
use Prim.Native.String.{String, ◌++◌}
use text.Mathlib.TextPositions.{starts_with-append, slice-append_right, len-append}
use banana_talk.Prelude.{◌≡◌}
use banana_talk.Strings.{trim_prefix}

pub trim_prefix-append : (prefix s : String) → trim_prefix (prefix ++ s) prefix ≡ s
trim_prefix-append prefix s =
    rw (starts_with-append prefix s) (rw (len-append prefix s) (slice-append_right prefix s))
