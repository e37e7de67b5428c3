-- ===== src/Matchmaker.antt =====
-- backend/matchmaker.go: the waiting queue, the block sets and the sessions, all kept in Redis.
-- A method takes the store and returns the store that its last command leaves; log lines are left
-- out. Times are nanoseconds.
pub mod Drain
pub mod Effects
pub mod Cycle
pub mod Loop
pub mod Matches
pub mod Blocks
pub mod Run
mod Tests
use banana_talk.Prelude.{
  ℕ, zero, suc, ◌+◌, ◌-◌, String, Bool, true, false, Option, none, some, List, [], ◌∷◌, ◌++◌, ◌==◌,
  ltb, leb, if◌then◌else◌,
}
use banana_talk.Metrics.{Metrics}
use banana_talk.Redis.Commands.{
  queue, trigger, enqueued_at, session, notify, blocks, HashValue, int_text, other_text, del_key,
  add_members, expire, rpush, lrem, llen, lpop, hset, hdel, hmget, exists, del, sadd, sismember,
  set, publish, exec,
}
use banana_talk.Redis.{Reply, ok, err, after, Redis}

-- 24 hours
abbrev pub blocks_ttl : ℕ
blocks_ttl = 86400000000000

abbrev pub session_ttl : ℕ
session_ttl = 86400000000000

abbrev pub max_blocked_rejections_per_cycle : ℕ
max_blocked_rejections_per_cycle = 32

-- `strconv.ParseInt` of what HMGET gives for a field; a missing field is no string.
abbrev pub parse_stamp : Option HashValue → Option ℕ
parse_stamp none = none
parse_stamp (some (int_text n)) = some n
parse_stamp (some (other_text s)) = none

-- One round of the loop of `observeMatchLatency`; a negative difference is skipped.
abbrev pub observe : ℕ → Option ℕ → List ℕ → List ℕ
observe now none seen = seen
observe now (some ns) seen = if ltb now ns then seen else seen ++ (now - ns) ∷ []

abbrev pub observe_all : ℕ → List (Option HashValue) → List ℕ → List ℕ
observe_all now [] seen = seen
observe_all now (raw ∷ vals) seen = observe_all now vals (observe now (parse_stamp raw) seen)

-- The tail of `tryMatch`: fewer than two results are no pair, which is `""` twice.
abbrev pub first_two : List String → String × String
first_two (a ∷ b ∷ _) = (a, b)
first_two _ = ("", "")

-- The table `{c1, c2}`. After the test of the length neither of the two is nil, so the first two
-- clauses are not reached.
abbrev pub table : Option String → Option String → List String
table none c2 = []
table (some c1) none = c1 ∷ []
table (some c1) (some c2) = c1 ∷ c2 ∷ []

module _ (r : Redis) where
  open r use {Store, run}

  -- The shared store and the collectors.
  pub record MatchState : Type 0 where
    pub store : Store
    pub metrics : Metrics

  unfoldable pub add : ℕ → String → Store → Store
  add now user s = elim (run (rpush queue (user ∷ [])) s) [
    | err s1 ↦ s1
    | ok _ s1 ↦
        after (run (publish trigger "1") (after (run (hset enqueued_at user (int_text now)) s1)))
  ]

  unfoldable pub remove : String → Store → Store
  remove user s = elim (run (lrem queue user) s) [
    | err s1 ↦ s1
    | ok _ s1 ↦ after (run (hdel enqueued_at (user ∷ [])) s1)
  ]

  observe_read : ℕ → List String → Metrics → Reply Store (List (Option HashValue)) → MatchState
  observe_read now ids m (err s) = record { store = s; metrics = m }
  observe_read now ids m (ok vals s) = record {
    store = after (run (hdel enqueued_at ids) s);
    metrics = record m { match_latency = observe_all now vals m.match_latency };
  }

  pub observe_match_latency : ℕ → List String → MatchState → MatchState
  unfolding observe_read
  observe_match_latency now [] st = st
  observe_match_latency now (id ∷ ids) st =
      observe_read now (id ∷ ids) st.metrics (run (hmget enqueued_at (id ∷ ids)) st.store)

  -- `popPairScript`, which Redis runs as one step. An error in a call ends the script.
  pub pop_pair_script : Store → Reply Store (List String)
  pop_pair_script s = elim (run (llen queue) s) [
    | err s1 ↦ err s1
    | ok n s1 ↦ if ltb n 2 then ok [] s1 else elim (run (lpop queue) s1) [
      | err s2 ↦ err s2
      | ok c1 s2 ↦ elim (run (lpop queue) s2) [ err s3 ↦ err s3 | ok c2 s3 ↦ ok (table c1 c2) s3 ]
    ]
  ]

  pub try_match : Store → Reply Store (String × String)
  try_match s = elim (pop_pair_script s) [
    | err s1 ↦ err s1
    | ok result s1 ↦ ok (first_two result) s1
  ]

  unfoldable pub hydrate_blocks : String → List String → Store → Store
  hydrate_blocks user [] s = after (run (exec (del_key (blocks user) ∷ [])) s)
  hydrate_blocks user (sub ∷ subs) s = after (
      run
        (exec (
          del_key (blocks user)
          ∷ add_members (blocks user) (sub ∷ subs)
          ∷ expire (blocks user) blocks_ttl
          ∷ []))
        s)

  unfoldable pub add_block : String → String → Store → Store
  add_block blocker blocked s = elim (run (exists (blocks blocker)) s) [
    | err s1 ↦ s1
    | ok found s1 ↦ if found then after (run (sadd (blocks blocker) (blocked ∷ [])) s1) else s1
  ]

  unfoldable pub clear_blocks : String → Store → Store
  clear_blocks user s = after (run (del (blocks user)) s)

  -- Whether one SISMEMBER says that `blocker` has blocked `other`; an error counts as no.
  pub blocks_one : String → String → Store → Bool × Store
  blocks_one blocker other s = elim (run (sismember (blocks blocker) other) s) [
    | err s1 ↦ (false, s1)
    | ok blocked s1 ↦ (blocked, s1)
  ]

  pub pair_blocked : String → String → Store → Bool × Store
  pair_blocked a b s =
      let (first, s1) = blocks_one a b s in if first then (true, s1) else blocks_one b a s1

  pub set_session : String → String → Store → Store
  set_session user peer s = after (run (set (session user) peer session_ttl) s)

  unfoldable pub delete_session : String → Store → Store
  delete_session user s = after (run (del (session user)) s)

  -- The rejection branch of the loop of `processMatches`; `again` is its next round.
  pub reject_pair :
      (ℕ → MatchState → Option MatchState) → ℕ → String → String → MatchState → Option MatchState
  reject_pair again rejections id1 id2 st =
      let m = record st.metrics {
        blocked_pairings_total = st.metrics.blocked_pairings_total + 1;
      } in
      elim (run (rpush queue (id1 ∷ id2 ∷ [])) st.store) [
        | err s1 ↦ some (record { store = s1; metrics = m })
        | ok _ s1 ↦
            if leb max_blocked_rejections_per_cycle (rejections + 1)
            then some (record { store = s1; metrics = m })
            else again (rejections + 1) (record { store = s1; metrics = m })
      ]

  -- The matching branch, up to the end of the round.
  pub match_pair : ℕ → String → String → MatchState → MatchState
  unfolding observe_match_latency set_session
  match_pair now id1 id2 st =
      let counted = record st {
        metrics = record st.metrics { matches_total = st.metrics.matches_total + 1 };
      } in
      let observed = observe_match_latency now (id1 ∷ id2 ∷ []) counted in
      record observed {
        store = after (
            run (publish (notify id2) id1) (
              after (
                run (publish (notify id1) id2)
                  (set_session id2 id1 (set_session id1 id2 observed.store)))));
      }

  pub one_round :
      (ℕ → MatchState → Option MatchState)
      → ℕ
      → ℕ
      → MatchState
      → Reply Store (String × String)
      → Option MatchState
  one_round again now rejections st (err s) = some (record st { store = s })
  one_round again now rejections st (ok (id1, id2) s) =
      if id1 == ""
      then some (record st { store = s })
      else (let (blocked, s1) = pair_blocked id1 id2 s in
          if blocked
          then reject_pair again rejections id1 id2 (record st { store = s1 })
          else again rejections (match_pair now id1 id2 (record st { store = s1 })))

  -- The loop of `processMatches`, on fuel; `none` means that the fuel ran out. `clock k` is the time
  -- that the round reads before which k more rounds are allowed.
  pub process_from : ℕ → (ℕ → ℕ) → ℕ → MatchState → Option MatchState
  process_from zero clock rejections st = none
  process_from (suc fuel) clock rejections st =
      one_round (process_from fuel clock) (clock fuel) rejections st (try_match st.store)

  pub process_matches : ℕ → (ℕ → ℕ) → MatchState → Option MatchState
  process_matches fuel clock st = process_from fuel clock 0 st
