-- ===== src/Strings/Parts.antt =====
-- The parts of a text that Go's `strings.Split` has found so far, from the end.
use banana_talk.Prelude.{String, List, [], ◌∷◌}

abbrev pub one_part : List String
one_part = "" ∷ []

abbrev pub next_part : List String → List String
next_part parts = "" ∷ parts

-- What stands before the first part.
abbrev pub grow_part : (String → String) → List String → List String
grow_part f [] = f "" ∷ []
grow_part f (part ∷ parts) = f part ∷ parts
