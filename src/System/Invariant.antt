-- ===== src/System/Invariant.antt =====
-- What holds of the database and Redis together whatever the backend has done.
use banana_talk.Prelude.{
  ℕ, ◌<◌, String, ◌≡◌, ◌≢◌, refl, sym, ap, ◌∙◌, inl, inr, Bool, true, false, Option, none, some,
  List, ◌++◌, length, has, map, arith, Bool-cases,
}
use banana_talk.Redis.Commands.{Key, blocks}
use banana_talk.Redis.{Redis, IsUp}
use banana_talk.Matchmaker.{MatchState, process_matches}
use banana_talk.Matchmaker.Run.{cycle_fuel}
use banana_talk.Matchmaker.Drain.{Drain-All, Drain-free, Drain-fifo, Drain-ends, members}
use banana_talk.Matchmaker.Effects.{is_blocked}
use banana_talk.Matchmaker.Cycle.{waiting, notices, Processed}
use banana_talk.Matchmaker.Loop.{process_matches-Processed}
use banana_talk.Db.ReportRows.{Postgres}
use banana_talk.Auth.{Payload, bearer_token, verify_token}
use banana_talk.RateLimit.{Limits}
use banana_talk.Backend.Sound.{BlockedIn, Sound-keys, NoPairs, IsSound}
use banana_talk.Backend.{Backend}
use banana_talk.Connection.Kept.{leave-IsSound}
use banana_talk.Live.Delivered.{peers_of, sendable, received-notices, forward_matches-map}
use banana_talk.Live.{received, match_message, forward_matches}
use banana_talk.Routes.Kept.{serve-IsSound}
use banana_talk.System.{
  matching, matched, Event, served, left, cycled, Runs, here, next, SparesEvent, Spares,
}

some_inj {ℓ} : {A : Type ℓ} {x y : A} → some x ≡ some y → x ≡ y
some_inj {x} e = ap (elim [ none ↦ x | some z ↦ z ]) e

module _ (r : Redis) (up : IsUp r) where
  open r use {keys}

  -- A cycle ends, in a sound backend.
  pub cycle :
      {G : String → String → Type 0} (b : Backend r) (clock : ℕ → ℕ)
      → IsSound G b
      → (st : MatchState r) × (process_matches r (cycle_fuel r (matching b)) clock (matching b)
          ≡ some st)
        × Processed r 32 (matching b) st
  cycle b clock h =
      process_matches-Processed r clock (cycle_fuel r (matching b)) (matching b) up h.named
        (omega arith)

  cycled-IsSound :
      {G : String → String → Type 0} (b : Backend r) (clock : ℕ → ℕ) (st : MatchState r)
      → process_matches r (cycle_fuel r (matching b)) clock (matching b) ≡ some st
      → IsSound G b
      → IsSound G (matched st b)
  cycled-IsSound b clock st e h =
      let (st1, e1, p) = cycle b clock h in
      rw (some_inj (sym e ∙ e1)) (
        Sound-keys (keys st1.store) (Drain-All (λ u. u ≢ "") p.drain h.named)
          (λ u v k. sym (ap (λ f. has (f (blocks u)) v) p.same_blocks) ∙ k)
          (λ u v g k. ap (λ f. has (f (blocks u)) v) p.same_blocks ∙ k) h)

  module _ {interval burst : ℕ} (l : Limits interval burst) (trust_xff : Bool)
      (validate : String → Option Payload) (d : Postgres) (sign : String → ℕ → Option String)
      (login : Option (String × String)) where
    Event-IsSound :
        {G : String → String → Type 0} {b c : Backend r} (meant : String → Type 0)
        → ((u v : String) → G u v → meant u)
        → (s : Event r l trust_xff validate d sign login b c)
        → SparesEvent r l trust_xff validate d sign login meant s
        → IsSound G b
        → IsSound G c
    Event-IsSound {b = b} meant f (served env at draining random_hex upload req m) spared h =
        serve-IsSound r up l trust_xff validate d sign env at draining random_hex upload login req b
          m
          (λ path e v g.
            spared path e (f (verify_token validate at.seconds (bearer_token req.http)).0 v g))
          h
    Event-IsSound {b = b} meant f (left user) spared h =
        leave-IsSound r up user b (λ v g. spared (f user v g)) h
    Event-IsSound {b = b} meant f (cycled clock st e) spared h = cycled-IsSound b clock st e h

    -- Blocks that are in Redis stay there while the connections of the blockers are not cleaned up.
    pub Runs-kept :
        {G : String → String → Type 0} {b c : Backend r} (meant : String → Type 0)
        → ((u v : String) → G u v → meant u)
        → (p : Runs r l trust_xff validate d sign login b c)
        → Spares r l trust_xff validate d sign login meant p
        → IsSound G b
        → IsSound G c
    Runs-kept meant f here spared h = h
    Runs-kept meant f (next p s) (before, spared) h =
        Event-IsSound meant f s spared (Runs-kept meant f p before h)

    none_meant-Spares :
        {b c : Backend r} (p : Runs r l trust_xff validate d sign login b c)
        → Spares r l trust_xff validate d sign login (λ u. ⊥) p
    none_meant-Spares here = tt
    none_meant-Spares (next p (served env at draining random_hex upload req m)) =
        (none_meant-Spares p, λ path e g. g)
    none_meant-Spares (next p (left user)) = (none_meant-Spares p, λ g. g)
    none_meant-Spares (next p (cycled clock st e)) = (none_meant-Spares p, tt)

    -- While no Redis command fails: whatever requests, ends of connections and cycles follow one another,
    -- whichever database statements fail, a sound backend stays sound: blocks stay symmetric and
    -- irreflexive, each user's counter stays the number of reports against the user, ids and
    -- google_subs stay unique, each report keeps the rows of both users, each waiting user has a name
    -- that is not "", and each member of a user's block set in Redis has a row in the database and is
    -- blocked by that user there.
    pub Runs-IsSound :
        {b c : Backend r}
        → Runs r l trust_xff validate d sign login b c
        → IsSound NoPairs b
        → IsSound NoPairs c
    Runs-IsSound p h = Runs-kept (λ u. ⊥) (λ u v g. g) p (none_meant-Spares p) h

    -- While no Redis command fails, in any state that a sound backend has got to: if no two waiting
    -- users have a block between them in the database, a cycle ends within its fuel, pairs the waiting
    -- users two by two in their order, and leaves at most one; and each user with an open connection
    -- whose writes succeed is sent a match message for each pair with the user in it, in order, with
    -- the other one as the peer.
    pub process_matches-members :
        {b c : Backend r} (Float : Type 0) (clock : ℕ → ℕ)
        → Runs r l trust_xff validate d sign login b c
        → IsSound NoPairs b
        → ((u v : String)
            → has (waiting r (matching c)) u ≡ true
            → has (waiting r (matching c)) v ≡ true
            → BlockedIn c.conn.tables u v
            → ⊥)
        → (st : MatchState r) × (process_matches r (cycle_fuel r (matching c)) clock (matching c)
            ≡ some st)
          × (pairs : List (String × String)) × (waiting r (matching c)
              ≡ members pairs ++ waiting r st)
          × (length (waiting r st) < 2)
          × (sent : List (Key × String)) × ((keys st.store).published
              ≡ (keys c.store).published ++ sent)
          × ((user : String)
              → forward_matches Float (map sendable (received user sent))
                ≡ map (match_message Float) (peers_of user pairs))
    process_matches-members {b} {c} Float clock p h apart =
        let s = Runs-IsSound p h in
        let (st, e, q) = cycle c clock s in
        let zero_rejected = Drain-free q.drain (λ x y hx hy. free s x y hx hy) in
        let (bound, ends) = Drain-ends q.drain in
        (
          st,
          e,
          q.pairs,
          Drain-fifo q.drain zero_rejected,
          ground (arith, ends, zero_rejected),
          notices q.pairs,
          q.published,
          λ user.
              rw (received-notices user q.pairs)
                (forward_matches-map Float (peers_of user q.pairs)),
        )
      where
        alone :
            IsSound NoPairs c
            → (x y : String) → has (waiting r (matching c)) x ≡ true
            → has (waiting r (matching c)) y ≡ true
            → has ((keys c.store).sets (blocks x)) y ≡ false
        alone s x y hx hy = elim (Bool-cases (has ((keys c.store).sets (blocks x)) y)) [
          | inr other ↦ other
          | inl held ↦ absurd (apart x y hx hy (s.cached x y held))
        ]

        free :
            IsSound NoPairs c
            → (x y : String) → has (waiting r (matching c)) x ≡ true
            → has (waiting r (matching c)) y ≡ true
            → is_blocked (keys c.store).sets x y ≡ false
        free s x y hx hy = rw (alone s x y hx hy, alone s y x hy hx) refl
