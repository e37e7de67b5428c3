-- ===== src/Matchmaker/Tests.antt =====
-- Runs and instances of the matchmaker's theorems on an in-memory store.
use mathlib.Core.HLevel.{⊥_prop}
use mathlib.Core.Logic.Or
use mathlib.Core.Bool.{false≢true}
use mathlib.Core.List.{Perm, Mem, Nodup, Nodup-cons, Nodup-nil, mem-cons, not-mem-nil}
use banana_talk.Prelude.{
  ℕ, ◌+◌, ◌≤◌, ◌<◌, ◌≢◌, String, ◌≡◌, refl, sym, ◌∙◌, ◌⊎◌, true, false, Option, none, some, List,
  [], ◌∷◌, ◌++◌, ◌==◌, arith, eq_iff, length, has, All, All-append,
}
use banana_talk.Metrics.{no_metrics}
use banana_talk.Redis.Commands.{Key, queue, notify, blocks}
use banana_talk.Redis.Memory.{memory, memory-IsUp, empty}
use banana_talk.Matchmaker.{
  MatchState, max_blocked_rejections_per_cycle, observe_match_latency, pop_pair_script, try_match,
  hydrate_blocks, add_block, blocks_one, pair_blocked, set_session, reject_pair, match_pair,
  one_round, process_from, process_matches,
}
use banana_talk.Matchmaker.Drain.{members, IsAllBlocked}
use banana_talk.Matchmaker.Effects.{is_blocked}
use banana_talk.Matchmaker.Cycle.{waiting, notices, Processed}
use banana_talk.Matchmaker.Loop.{process_matches-Processed}
use banana_talk.Matchmaker.Run.{
  triggered, ticked, cancelled, Round, KeepsNames, Cycles, run, run-Cycles,
}
use banana_talk.Matchmaker.Matches.{
  ArePeers, match_safety, match_exhausts, match_fifo, match_starves, match_sessions, match_self,
}
use banana_talk.Matchmaker.Blocks.{hydrate_blocks-sets, add_block-is_blocked}

abbrev sets_of : Key → List String
sets_of (blocks u) = elim (u == "alice") [ true ↦ "bob" ∷ [] | false ↦ [] ]
sets_of _ = []

abbrev lists_of : List String → Key → List String
lists_of q queue = q
lists_of q _ = []

-- A store in which the users of `q` wait and alice has blocked bob.
abbrev with_queue : List String → MatchState memory
with_queue q = record {
  store = record empty { lists = lists_of q; sets = sets_of };
  metrics = no_metrics;
}

abbrev noon : ℕ → ℕ
noon k = 1000

abbrev settled : MatchState memory → Option (MatchState memory) → MatchState memory
settled d none = d
settled d (some st) = st

runs_cycle : Unit {0}
unfolding process_matches process_from one_round try_match pop_pair_script pair_blocked blocks_one
    reject_pair match_pair observe_match_latency set_session
runs_cycle = tt

abbrev three : MatchState memory
three = with_queue ("alice" ∷ "bob" ∷ "carol" ∷ [])

three_done : MatchState memory
three_done = settled three (process_matches memory 40 noon three)

three_runs : process_matches memory 40 noon three ≡ some three_done
unfolding runs_cycle three_done
three_runs = refl

-- alice and bob are turned down, and carol is matched with alice.
three_left : waiting memory three_done ≡ "bob" ∷ []
unfolding runs_cycle three_done
three_left = refl

alice_named : ◌≢◌ {A = String} "alice" ""
alice_named = ground (arith, eq_iff "alice" "")

bob_named : ◌≢◌ {A = String} "bob" ""
bob_named = ground (arith, eq_iff "bob" "")

carol_named : ◌≢◌ {A = String} "carol" ""
carol_named = ground (arith, eq_iff "carol" "")

three_named : All (λ u. u ≢ "") (waiting memory three)
three_named = (alice_named, (bob_named, (carol_named, tt)))

process_matches-Processed_example :
    (st' : MatchState memory) × (process_matches memory 40 noon three ≡ some st')
    × Processed memory max_blocked_rejections_per_cycle three st'
process_matches-Processed_example =
    process_matches-Processed memory noon 40 three memory-IsUp three_named (omega arith)

match_safety_example :
    (pairs : List (String × String)) × ((memory.keys three_done.store).published
      ≡ [] ++ notices pairs)
    × All (λ m. is_blocked (memory.keys three.store).sets m.0 m.1 ≡ false) pairs
    × Perm ("alice" ∷ "bob" ∷ "carol" ∷ []) (members pairs ++ waiting memory three_done)
match_safety_example =
    match_safety memory noon 40 three three_done memory-IsUp three_named (omega arith) three_runs

match_exhausts_example :
    (rejections : ℕ) × (three_done.metrics.blocked_pairings_total ≡ 0 + rejections)
    × (rejections ≤ max_blocked_rejections_per_cycle)
    × ((length (waiting memory three_done) < 2) ⊎ (rejections ≡ max_blocked_rejections_per_cycle))
match_exhausts_example =
    match_exhausts memory noon 40 three three_done memory-IsUp three_named (omega arith) three_runs

distinct : {a b : String} {l : List String} → (a == b) ≡ false → ¬ Mem a l → ¬ Mem a (b ∷ l)
distinct {a} {b} ne later m =
    Or.elim ⊥_prop (mem-cons.0 m)
      (λ e. let t = (eq_iff a b).1 e in absurd (false≢true (sym ne ∙ t))) later

three_distinct : Nodup (waiting memory three)
three_distinct = Nodup-cons.1 (
  distinct refl (distinct refl not-mem-nil),
  Nodup-cons.1 (distinct refl not-mem-nil, Nodup-cons.1 (not-mem-nil, Nodup-nil)),
)

match_sessions_example :
    (pairs : List (String × String)) × ((memory.keys three_done.store).published
      ≡ [] ++ notices pairs)
    × All (ArePeers (memory.keys three_done.store).strings) pairs
match_sessions_example =
    match_sessions memory noon 40 three three_done memory-IsUp three_named (omega arith) three_runs
      three_distinct

-- Nobody has blocked anybody.
abbrev peaceful : MatchState memory
peaceful = record {
  store = record empty { lists = lists_of ("alice" ∷ "bob" ∷ "carol" ∷ []) };
  metrics = no_metrics;
}

peaceful_done : MatchState memory
peaceful_done = settled peaceful (process_matches memory 40 noon peaceful)

peaceful_runs : process_matches memory 40 noon peaceful ≡ some peaceful_done
unfolding runs_cycle peaceful_done
peaceful_runs = refl

match_fifo_example :
    (pairs : List (String × String)) × ((memory.keys peaceful_done.store).published
      ≡ [] ++ notices pairs)
    × ("alice" ∷ "bob" ∷ "carol" ∷ [] ≡ members pairs ++ waiting memory peaceful_done)
    × (length (waiting memory peaceful_done) < 2)
match_fifo_example =
    match_fifo memory noon 40 peaceful peaceful_done memory-IsUp three_named (omega arith)
      peaceful_runs (λ a b. refl)

-- Two connections each of alice and bob: every pair at the head is blocked.
abbrev stuck : MatchState memory
stuck = with_queue ("alice" ∷ "bob" ∷ "bob" ∷ "alice" ∷ [])

stuck_done : MatchState memory
stuck_done = settled stuck (process_matches memory 40 noon stuck)

stuck_runs : process_matches memory 40 noon stuck ≡ some stuck_done
unfolding runs_cycle stuck_done
stuck_runs = refl

match_starves_example :
    ((memory.keys stuck_done.store).published ≡ [])
    × (stuck_done.metrics.matches_total ≡ 0)
    × IsAllBlocked (is_blocked (memory.keys stuck_done.store).sets) (waiting memory stuck_done)
match_starves_example =
    match_starves memory noon 40 stuck stuck_done memory-IsUp
      (alice_named, (bob_named, (bob_named, (alice_named, tt)))) (omega arith) stuck_runs
      (refl, (refl, tt))

abbrev twice : MatchState memory
twice = with_queue ("carol" ∷ "carol" ∷ [])

twice_done : MatchState memory
twice_done = settled twice (process_matches memory 40 noon twice)

twice_runs : process_matches memory 40 noon twice ≡ some twice_done
unfolding runs_cycle twice_done
twice_runs = refl

match_self_example :
    (more : List (Key × String)) × ((memory.keys twice_done.store).published
      ≡ [] ++ (notify "carol", "carol") ∷ (notify "carol", "carol") ∷ more)
match_self_example =
    match_self memory noon 40 twice twice_done memory-IsUp (carol_named, (carol_named, tt))
      (omega arith) twice_runs "carol" [] refl refl

hydrate_blocks-sets_example :
    let ks = memory.keys (hydrate_blocks memory "alice" ("carol" ∷ []) three.store) in
    ((z : String) → has (ks.sets (blocks "alice")) z ≡ has ("carol" ∷ []) z)
    × ((v : String) → v ≢ "alice" → ks.sets (blocks v) ≡ (memory.keys three.store).sets (blocks v))
    × (ks.lists queue ≡ (memory.keys three.store).lists queue)
hydrate_blocks-sets_example =
    hydrate_blocks-sets memory memory-IsUp "alice" ("carol" ∷ []) three.store

-- Two connected users without blocks: the block between them does not reach the matching loop.
add_block-is_blocked_example :
    is_blocked
      (memory.keys
        (add_block memory "bob" "carol" (add_block memory "carol" "bob" three.store))).sets
      "carol"
      "bob"
    ≡ false
add_block-is_blocked_example =
    add_block-is_blocked memory memory-IsUp "carol" "bob" three.store
      (ground (arith, eq_iff "carol" "bob"))

abbrev unchanged : memory.Store → memory.Store
unchanged s = s

-- Another instance puts dave into the waiting list.
abbrev dave_joins : memory.Store → memory.Store
dave_joins s = record s { lists = λ k. s.lists k ++ "dave" ∷ [] }

abbrev three_rounds : List (Round memory)
three_rounds =
    record { others = unchanged; wake = triggered; clock = noon }
    ∷ record { others = dave_joins; wake = ticked; clock = noon }
    ∷ record { others = unchanged; wake = cancelled; clock = noon }
    ∷ []

dave_named : ◌≢◌ {A = String} "dave" ""
dave_named = ground (arith, eq_iff "dave" "")

three_rounds_keep : All (KeepsNames memory) three_rounds
three_rounds_keep = (
  λ s h. h,
  (
    (λ s h. All-append (λ u. u ≢ "") (s.lists queue) ("dave" ∷ []) h (dave_named, tt)),
    (λ s h. h, tt),
  ),
)

run-Cycles_example :
    (st' : MatchState memory) × (run memory three_rounds three ≡ some st')
    × Cycles memory three_rounds three st'
run-Cycles_example = run-Cycles memory three_rounds three memory-IsUp three_rounds_keep three_named
