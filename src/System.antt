-- ===== src/System.antt =====
-- One instance of the backend at work: requests (backend/main.go, `main`), the ends of connections, and
-- the cycles of the matchmaker that `Run` starts, in any order. A handler runs as one step.
pub mod Invariant
pub mod Apart
mod Tests
use banana_talk.Prelude.{ℕ, String, ◌≡◌, Bool, false, Option, some}
use banana_talk.Redis.{Redis}
use banana_talk.Matchmaker.{MatchState, process_matches}
use banana_talk.Matchmaker.Run.{cycle_fuel}
use banana_talk.Sql.{Environment}
use banana_talk.Db.ReportRows.{Postgres}
use banana_talk.Auth.{Payload, bearer_token, verify_token}
use banana_talk.RateLimit.{Limits, Limiters}
use banana_talk.Backend.{Backend}
use banana_talk.Connection.{Moment, leave}
use banana_talk.Routes.{WebRequest, ws, route_of, serve}

module _ {r : Redis} where
  -- What the matchmaker of this instance sees.
  abbrev pub matching : Backend r → MatchState r
  matching b = record { store = b.store; metrics = b.metrics }

  abbrev pub matched : MatchState r → Backend r → Backend r
  matched st b = record b { store = st.store; metrics = st.metrics }

module _ (r : Redis) {interval burst : ℕ} (l : Limits interval burst) (trust_xff : Bool)
    (validate : String → Option Payload) (d : Postgres) (sign : String → ℕ → Option String)
    (login : Option (String × String)) where
  pub data Event (b : Backend r) : Backend r → Type 0 where
    -- A request to any path, at any time, whichever statements fail.
    served :
        (env : Environment) (at : Moment) (draining : Bool) (random_hex : Option String)
        (upload : String → Option String) (req : WebRequest) (m : Limiters l)
        → Event b
            (serve r l trust_xff validate d sign env at draining random_hex upload login req b m).1
    -- The cleanup of a connection.
    left : (user : String) → Event b (leave r user b)
    -- A cycle of `processMatches`.
    cycled :
        (clock : ℕ → ℕ) (st : MatchState r)
        → process_matches r (cycle_fuel r (matching b)) clock (matching b) ≡ some st
        → Event b (matched st b)

  pub data Runs (b : Backend r) : Backend r → Type 0 where
    here : Runs b b
    next : {c e : Backend r} → Runs b c → Event c e → Runs b e

  -- The event cleans up no connection of the users that are meant: none ends, and none of their
  -- requests to /ws is one whose first message cannot be sent.
  abbrev pub SparesEvent : {b c : Backend r} → (String → Type 0) → Event b c → Type 0
  SparesEvent meant (served env at draining random_hex upload req m) =
      route_of login req.path ≡ ws
      → at.greets ≡ false
      → meant (verify_token validate at.seconds (bearer_token req.http)).0
      → ⊥
  SparesEvent meant (left user) = meant user → ⊥
  SparesEvent meant (cycled clock st e) = Unit

  abbrev pub Spares : {b c : Backend r} → (String → Type 0) → Runs b c → Type 0
  Spares meant here = Unit
  Spares meant (next p s) = Spares meant p × SparesEvent meant s
