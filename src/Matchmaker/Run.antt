-- ===== src/Matchmaker/Run.antt =====
-- `Run` of backend/matchmaker.go: the loop that starts a cycle on a trigger or a tick, while other
-- parts of the backend and its other instances change the store. A list of rounds that ends is a
-- `select` that still waits. The fuel of a cycle is the number of waiting users and 33.
use banana_talk.Prelude.{
  ℕ, ◌+◌, ◌≡◌, ◌≢◌, ◌∙◌, refl, ap, Option, none, some, List, [], ◌∷◌, length, All, arith,
}
use banana_talk.Redis.Commands.{queue}
use banana_talk.Redis.{Redis, IsUp}
use banana_talk.Matchmaker.{MatchState, max_blocked_rejections_per_cycle, process_matches}
use banana_talk.Matchmaker.Drain.{Drain-All}
use banana_talk.Matchmaker.Cycle.{waiting, Processed}
use banana_talk.Matchmaker.Loop.{process_matches-Processed}

-- The channel that is ready: that of the triggers, of the ticker, or of the context.
pub data Wake : Type 0 where
  triggered ticked cancelled : Wake

module _ (r : Redis) where
  open r use {Store, keys}

  -- What others do before a wake, the wake, and the times that its cycle reads.
  pub record Round : Type 0 where
    pub others : Store → Store
    pub wake : Wake
    pub clock : ℕ → ℕ

  abbrev pub cycle_fuel : MatchState r → ℕ
  cycle_fuel st = length (waiting r st) + max_blocked_rejections_per_cycle + 1

  abbrev pub changed : (Store → Store) → MatchState r → MatchState r
  changed f st = record st { store = f st.store }

  abbrev after_cycle :
      (MatchState r → Option (MatchState r)) → Option (MatchState r) → Option (MatchState r)
  after_cycle later none = none
  after_cycle later (some st) = later st

  -- The `select`: a context that is done ends the loop.
  unfoldable pub select :
      (MatchState r → Option (MatchState r)) → Wake → (ℕ → ℕ) → MatchState r → Option (MatchState r)
  select later cancelled clock st = some st
  select later triggered clock st = after_cycle later (process_matches r (cycle_fuel st) clock st)
  select later ticked clock st = after_cycle later (process_matches r (cycle_fuel st) clock st)

  unfoldable pub run : List Round → MatchState r → Option (MatchState r)
  run [] st = some st
  run (w ∷ ws) st = select (run ws) w.wake w.clock (changed w.others st)

  abbrev pub IsNamed : Store → Type 0
  IsNamed s = All (λ u. u ≢ "") ((keys s).lists queue)

  -- What others do leaves no user named "" in the waiting list.
  abbrev pub KeepsNames : Round → Type 0
  KeepsNames w = (s : Store) → IsNamed s → IsNamed (w.others s)

  abbrev pub StartsCycle : Wake → Type 0
  StartsCycle cancelled = ⊥
  StartsCycle triggered = Unit
  StartsCycle ticked = Unit

  -- Between the rounds, each wake until the context is done is one whole cycle.
  pub data Cycles : List Round → MatchState r → MatchState r → Type 0 where
    idle : {st : MatchState r} → Cycles [] st st
    done :
        {w : Round} {ws : List Round} {st : MatchState r}
        → w.wake ≡ cancelled
        → Cycles (w ∷ ws) st (changed w.others st)
    cycle :
        {w : Round} {ws : List Round} {st st1 st2 : MatchState r}
        → StartsCycle w.wake
        → Processed r max_blocked_rejections_per_cycle (changed w.others st) st1
        → IsNamed st1.store
        → Cycles ws st1 st2
        → Cycles (w ∷ ws) st st2

  abbrev Ran : List Round → MatchState r → Type 0
  Ran ws st = (st' : MatchState r) × (run ws st ≡ some st') × Cycles ws st st'

  module _ (up : IsUp r) (w : Round) (ws : List Round) (st : MatchState r)
      (names : IsNamed (w.others st.store))
      (later : (st1 : MatchState r) → IsNamed st1.store → Ran ws st1) where
    -- A wake that is no cancellation runs its cycle to the end, and the loop goes on.
    cycle_runs :
        StartsCycle w.wake
        → run (w ∷ ws) st
          ≡ after_cycle
              (run ws)
              (process_matches r (cycle_fuel (changed w.others st)) w.clock (changed w.others st))
        → Ran (w ∷ ws) st
    cycle_runs awake runs =
        let st0 = changed w.others st in
        let p = process_matches-Processed r w.clock (cycle_fuel st0) st0 up names (omega arith) in
        let named = Drain-All (λ u. u ≢ "") p.2.drain names in
        let rest = later p.0 named in
        (rest.0, runs ∙ ap (after_cycle (run ws)) p.1 ∙ rest.1, cycle awake p.2 named rest.2)

    round_runs : (k : Wake) → w.wake ≡ k → Ran (w ∷ ws) st
    unfolding run select
    round_runs cancelled e = (changed w.others st, rw e refl, done e)
    round_runs triggered e = cycle_runs (rw e tt) (rw e refl)
    round_runs ticked e = cycle_runs (rw e tt) (rw e refl)

  -- While no Redis command fails, no waiting user is named "", and others put no such user into the
  -- waiting list: `Run` gets through any rounds, each wake before the context is done is one whole
  -- cycle that does what `Processed` says of the state that it finds, and after that none starts.
  pub run-Cycles :
      (ws : List Round) (st : MatchState r)
      → IsUp r
      → All KeepsNames ws
      → IsNamed st.store
      → (st' : MatchState r) × (run ws st ≡ some st') × Cycles ws st st'
  unfolding run
  run-Cycles [] st up keeps names = (st, refl, idle)
  run-Cycles (w ∷ ws) st up (k, ks) names =
      round_runs up w ws st (k st.store names) (λ st1 named. run-Cycles ws st1 up ks named) w.wake
        refl
