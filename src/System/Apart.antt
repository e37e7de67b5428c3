-- ===== src/System/Apart.antt =====
-- Whom the matchmaker of backend/matchmaker.go never pairs with a user who has connected to /ws of
-- backend/main.go.
use banana_talk.Prelude.{
  ℕ, String, ◌≡◌, ◌≢◌, refl, sym, ap, ◌∙◌, Bool, true, false, Option, some, List, [], ◌∷◌, ◌++◌,
  has, All, arith,
}
use banana_talk.Redis.Commands.{Key, blocks}
use banana_talk.Redis.{Redis, IsUp}
use banana_talk.Matchmaker.{MatchState, process_matches}
use banana_talk.Matchmaker.Run.{cycle_fuel}
use banana_talk.Matchmaker.Drain.{Drain-unblocked}
use banana_talk.Matchmaker.Effects.{is_blocked}
use banana_talk.Matchmaker.Cycle.{notices}
use banana_talk.Sql.{Environment}
use banana_talk.Db.ReportRows.{Postgres}
use banana_talk.Http.{Request}
use banana_talk.Auth.{Payload}
use banana_talk.RateLimit.{Limits, Limiters, Origin}
use banana_talk.Backend.Sound.{BlockedIn, NoPairs, IsSound}
use banana_talk.Backend.{Backend}
use banana_talk.Connection.Restored.{handle_connections-kept}
use banana_talk.Connection.{Moment, opened, handle_connections}
use banana_talk.System.{matching, Runs, Spares}
use banana_talk.System.Invariant.{cycle, Runs-kept}

-- A pair that the matchmaker does not turn down is not one with a block.
apart :
    (f : Key → List String) (user v : String) (ms : List (String × String))
    → has (f (blocks user)) v ≡ true
    → All (λ m. is_blocked f m.0 m.1 ≡ false) ms
    → All (λ m. (m ≢ (user, v)) × (m ≢ (v, user))) ms
apart f user v [] e h = tt
apart f user v (m ∷ ms) e (h, hs) = (
  (
    λ p. absurd (ground (arith, e, ap (λ m. is_blocked f m.0 m.1) (sym p) ∙ h)),
    λ p. absurd (ground (arith, e, ap (λ m. is_blocked f m.0 m.1) (sym p) ∙ h)),
  ),
  apart f user v ms e hs,
)

module _ (r : Redis) (up : IsUp r) {interval burst : ℕ} (l : Limits interval burst)
    (trust_xff : Bool) (validate : String → Option Payload) (d : Postgres)
    (sign : String → ℕ → Option String) (login : Option (String × String)) where
  open r use {keys}

  -- While no Redis command fails: if a request to /ws, whose database statements all succeed, has
  -- opened a connection for a user in a sound backend, and the database then has a block of the
  -- user against `v`, then in any state that is reached without the cleanup of a connection of the
  -- user, and without a request of the user to /ws whose first message cannot be sent, whatever
  -- else happens and whichever statements fail, a cycle ends within its fuel, announces pairs,
  -- each to both of its users, and pairs the user with `v` in neither order.
  pub process_matches-blocked_apart :
      (env : Environment) (at : Moment) (draining : Bool) (req : Request) (from : Origin)
      (b : Backend r) (m m' : Limiters l) {b' c : Backend r} (user v : String) (clock : ℕ → ℕ)
      → ((n : ℕ) → env.fails n ≡ false)
      → IsSound NoPairs b
      → handle_connections r env at l trust_xff validate draining req from b m
        ≡ (opened user, b', m')
      → BlockedIn b'.conn.tables user v
      → (p : Runs r l trust_xff validate d sign login b' c)
      → Spares r l trust_xff validate d sign login (λ w. w ≡ user) p
      → (st : MatchState r) × (process_matches r (cycle_fuel r (matching c)) clock (matching c)
          ≡ some st)
        × (pairs : List (String × String)) × ((keys st.store).published
            ≡ (keys c.store).published ++ notices pairs)
        × All (λ x. (x ≢ (user, v)) × (x ≢ (v, user))) pairs
  process_matches-blocked_apart env at draining req from b m m' {b'} {c} user v clock calm sound h
        blocked p spared =
      let start =
        handle_connections-kept r up env at calm l trust_xff validate draining req from b m h
          sound in
      let s =
        Runs-kept r up l trust_xff validate d sign login (λ w. w ≡ user) (λ u w g. g.0) p spared
          start in
      let (st, e, q) = cycle r up c clock s in
      (
        st,
        e,
        q.pairs,
        q.published,
        apart (keys c.store).sets user v q.pairs (s.kept user v (refl, blocked))
            (Drain-unblocked q.drain),
      )
