-- ===== src/Live/Delivered.antt =====
-- Which matches of a cycle reach a connected user (backend/main.go and backend/matchmaker.go).
use banana_talk.Prelude.{String, ◌≡◌, refl, ap, true, List, [], ◌∷◌, ◌==◌, if◌then◌else◌, map}
use banana_talk.Matchmaker.Cycle.{notices}
use banana_talk.Live.{Write, received, match_message, forward_matches}

-- With whom a user is paired, in order.
abbrev pub peers_of : String → List (String × String) → List String
peers_of user [] = []
peers_of user ((a, b) ∷ ms) =
    let later = peers_of user ms in
    let second = if b == user then a ∷ later else later in if a == user then b ∷ second else second

pub received-notices :
    (user : String) (pairs : List (String × String))
    → received user (notices pairs) ≡ peers_of user pairs
received-notices user [] = refl
received-notices user ((a, b) ∷ ms) = rw (received-notices user ms) refl

-- A notification whose write succeeds.
abbrev pub sendable : String → String × Write
sendable peer = (peer, record { sets_deadline = true; writes = true })

pub forward_matches-map :
    (Float : Type 0) (peers : List String)
    → forward_matches Float (map sendable peers) ≡ map (match_message Float) peers
unfolding forward_matches
forward_matches-map Float [] = refl
forward_matches-map Float (p ∷ ps) =
    ap (λ ms. match_message Float p ∷ ms) (forward_matches-map Float ps)
