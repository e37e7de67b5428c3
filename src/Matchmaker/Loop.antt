-- ===== src/Matchmaker/Loop.antt =====
-- The loop of `processMatches` (backend/matchmaker.go) ends within its fuel, and each of its rounds
-- does what `Drain` allows.
use banana_talk.Prelude.{
  ℕ, zero, suc, ◌+◌, ◌<◌, String, ◌≡◌, ◌≢◌, refl, ap, ◌∙◌, inl, inr, true, false, Option, some,
  List, [], ◌∷◌, ◌++◌, leb, length, Bool-cases, arith, All, All-append, length-append,
  eq_false_of_ne,
}
use banana_talk.Redis.Commands.{Keyspace, queue, rpush}
use banana_talk.Redis.{Redis, IsUp, ok, run-at}
use banana_talk.Matchmaker.{
  MatchState, max_blocked_rejections_per_cycle, pair_blocked, match_pair, reject_pair, one_round,
  process_from, process_matches,
}
use banana_talk.Matchmaker.Effects.{
  is_blocked, offered, popped, try_match-keys, pair_blocked-keys, match_pair-keys,
  match_pair-metrics,
}
use banana_talk.Matchmaker.Cycle.{
  waiting, Processed, Processed-stop, Processed-match, Processed-reject, Processed-spent,
}

offered-short : (ks : Keyspace) → length (ks.lists queue) < 2 → offered ks ≡ ("", "")
offered-short ks h = ground arith

popped-short : (ks : Keyspace) → length (ks.lists queue) < 2 → popped ks ≡ ks
popped-short ks h = ground arith

module _ (ks : Keyspace) (a b : String) (q : List String) (w : ks.lists queue ≡ a ∷ b ∷ q) where
  offered-pair : offered ks ≡ (a, b)
  offered-pair = rw w (ground arith)

  popped-pair : (popped ks).lists queue ≡ q
  popped-pair = ground arith

  popped-sets : (popped ks).sets ≡ ks.sets
  popped-sets = ground arith

  popped-strings : (popped ks).strings ≡ ks.strings
  popped-strings = ground arith

  popped-published : (popped ks).published ≡ ks.published
  popped-published = ground arith

module _ (r : Redis) (again : ℕ → MatchState r → Option (MatchState r)) (now rejections : ℕ)
    (st : MatchState r) (a b : String) (named : a ≢ "") (s1 : r.Store) {s2 : r.Store} where
  one_round-free :
      pair_blocked r a b s1 ≡ (false, s2)
      → one_round r again now rejections st (ok (a, b) s1)
        ≡ again rejections (match_pair r now a b (record st { store = s2 }))
  unfolding one_round
  one_round-free e = rw (eq_false_of_ne a "" named) (rw e refl)

  one_round-blocked :
      pair_blocked r a b s1 ≡ (true, s2)
      → one_round r again now rejections st (ok (a, b) s1)
        ≡ reject_pair r again rejections a b (record st { store = s2 })
  unfolding one_round
  one_round-blocked e = rw (eq_false_of_ne a "" named) (rw e refl)

module _ (r : Redis) (up : IsUp r) (clock : ℕ → ℕ) where
  open r use {Store, keys}

  -- What a call of the loop on the state `st` promises, with `n` rejections still allowed.
  abbrev Promise : ℕ → ℕ → ℕ → MatchState r → Type 0
  Promise fuel n rejections st =
      (st' : MatchState r) × (process_from r fuel clock rejections st ≡ some st')
      × Processed r n st st'

  abbrev HasNames : MatchState r → Type 0
  HasNames st = All (λ u. u ≢ "") (waiting r st)

  round_short :
      (fuel n rejections : ℕ) (st : MatchState r)
      → length (waiting r st) < 2
      → Promise (suc fuel) n rejections st
  unfolding process_from one_round
  round_short fuel n rejections st h =
      let (s1, e, k) = try_match-keys r up st.store in
      let kept = k ∙ popped-short (keys st.store) h in
      (
        record st { store = s1 },
        rw (e, process_from, one_round) (rw (offered-short (keys st.store) h) refl),
        Processed-stop r n st (record st { store = s1 }) (ap (λ ks. ks.sets) kept) h kept refl,
      )

  module _ (fuel n rejections : ℕ) (st : MatchState r) (a b : String) (q : List String)
      (named : a ≢ "") (w : waiting r st ≡ a ∷ b ∷ q) where
    round_match :
        is_blocked (keys st.store).sets a b ≡ false
        → ((st1 : MatchState r) → waiting r st1 ≡ q → Promise fuel n rejections st1)
        → Promise (suc fuel) n rejections st
    unfolding process_from
    round_match free later =
        let ks = keys st.store in
        let (s1, e1, k1) = try_match-keys r up st.store in
        let (s2, e2, k2) = pair_blocked-keys r up a b s1 k1 in
        let mid : MatchState r = record st { store = s2 } in
        let st1 = match_pair r (clock fuel) a b mid in
        let k = match_pair-keys r up (clock fuel) a b mid k2 in
        let m = match_pair-metrics r up (clock fuel) a b mid k2 in
        let left = ap (λ s. s.lists queue) k ∙ popped-pair ks a b q w in
        let sets = ap (λ s. s.sets) k ∙ popped-sets ks a b q w in
        let unblocked = ap (λ f. is_blocked f a b) (popped-sets ks a b q w) ∙ free in
        let (st', e, p) = later st1 left in
        (
          st',
          rw (e1, process_from)
              (rw (offered-pair ks a b q w) (
                one_round-free r (process_from r fuel clock) (clock fuel) rejections st a b named s1
                  (e2 ∙ ap (λ x. (x, s2)) unblocked)
                ∙ e)),
          Processed-match r n st st1 sets a b q w st' free left
              (ap (λ s. s.strings) k ∙ rw (popped-strings ks a b q w) refl)
              (ap (λ s. s.published) k ∙ rw (popped-published ks a b q w) refl)
              (ap (λ x. x.matches_total) m) (ap (λ x. x.blocked_pairings_total) m) p,
        )

    round_reject :
        is_blocked (keys st.store).sets a b ≡ true
        → rejections + suc n ≡ max_blocked_rejections_per_cycle
        → ((st1 : MatchState r)
            → waiting r st1 ≡ q ++ a ∷ b ∷ []
            → 0 < n
            → Promise fuel n (rejections + 1) st1)
        → Promise (suc fuel) (suc n) rejections st
    unfolding process_from reject_pair
    round_reject stopped budget later =
        let ks = keys st.store in
        let (s1, e1, k1) = try_match-keys r up st.store in
        let (s2, e2, k2) = pair_blocked-keys r up a b s1 k1 in
        let (s3, e3, k3) = run-at r up (rpush queue (a ∷ b ∷ [])) s2 k2 in
        let st1 : MatchState r = record {
          store = s3;
          metrics = record st.metrics {
            blocked_pairings_total = st.metrics.blocked_pairings_total + 1;
          };
        } in
        let left = ap (λ s. s.lists queue) k3 ∙ rw (popped-pair ks a b q w) refl in
        let sets = ap (λ s. s.sets) k3 ∙ popped-sets ks a b q w in
        let hit = ap (λ f. is_blocked f a b) (popped-sets ks a b q w) ∙ stopped in
        let runs =
          one_round-blocked r (process_from r fuel clock) (clock fuel) rejections st a b named s1
            (e2 ∙ ap (λ x. (x, s2)) hit) in
        let made = λ (m : ℕ) (st' : MatchState r) (p : Processed r m st1 st').
          Processed-reject r m st st1 sets a b q w st' stopped left
            (ap (λ s. s.strings) k3 ∙ popped-strings ks a b q w)
            (ap (λ s. s.published) k3 ∙ popped-published ks a b q w) refl refl p in
        elim (Bool-cases (leb max_blocked_rejections_per_cycle (rejections + 1))) [
          | inl stop ↦ (
            st1,
            rw (e1, process_from)
                (rw (offered-pair ks a b q w) (runs ∙ rw (e3, reject_pair) (rw stop refl))),
            rw (none_left stop) (made 0 st1 (Processed-spent r st1)),
          )
          | inr go ↦
              let (st', e, p) = later st1 left (ground arith) in
              (
                st',
                rw (e1, process_from)
                    (rw (offered-pair ks a b q w) (runs ∙ rw (e3, reject_pair) (rw go e))),
                made n st' p,
              )
        ]
      where
        none_left : leb max_blocked_rejections_per_cycle (rejections + 1) ≡ true → n ≡ 0
        none_left h = ground arith

  -- What the loop promises on less fuel.
  abbrev Later : ℕ → Type 0
  Later fuel =
      (n rejections : ℕ) (st : MatchState r)
      → 0 < n
      → rejections + n ≡ max_blocked_rejections_per_cycle
      → HasNames st
      → length (waiting r st) + n < fuel
      → Promise fuel n rejections st

  round_on :
      (fuel n rejections : ℕ) (st : MatchState r) (q : List String)
      → waiting r st ≡ q
      → rejections + suc n ≡ max_blocked_rejections_per_cycle
      → HasNames st
      → length q + suc n < suc fuel
      → Later fuel
      → Promise (suc fuel) (suc n) rejections st
  round_on fuel n rejections st [] w budget names enough later =
      round_short fuel (suc n) rejections st (rw w (omega arith))
  round_on fuel n rejections st (a ∷ []) w budget names enough later =
      round_short fuel (suc n) rejections st (rw w (omega arith))
  round_on fuel n rejections st (a ∷ b ∷ q) w budget names enough later =
      let (na, nb, nq) = named in
      elim (Bool-cases (is_blocked (keys st.store).sets a b)) [
        | inl stopped ↦ round_reject fuel n rejections st a b q na w stopped budget λ st1 left pos.
            later n (rejections + 1) st1 pos (omega (arith, budget))
              (rw left (All-append (λ u. u ≢ "") q (a ∷ b ∷ []) nq (na, (nb, tt))))
              (rw left (omega (arith, enough, length-append {0} q (a ∷ b ∷ []))))
        | inr free ↦ round_match fuel (suc n) rejections st a b q na w free λ st1 left.
            later (suc n) rejections st1 (omega arith) budget (rw left nq)
              (rw left (omega (arith, enough)))
      ]
    where
      named : (a ≢ "") × (b ≢ "") × All (λ u. u ≢ "") q
      named = let h = rw w at names in (h.0, h.1.0, h.1.1)

  -- With fuel for every round, the loop ends and keeps its promise.
  pub process_from-Processed : (fuel : ℕ) → Later fuel
  process_from-Processed zero n rejections st pos budget names enough = absurd (omega arith)
  process_from-Processed (suc fuel) zero rejections st pos budget names enough =
      absurd (omega arith)
  process_from-Processed (suc fuel) (suc n) rejections st pos budget names enough =
      round_on fuel n rejections st (waiting r st) refl budget names enough
        (process_from-Processed fuel)

-- While no Redis command fails and no waiting user is named "", a cycle ends after at most one round
-- for each user and 32 more, on any fuel that is more than that, and does what `Processed` says.
pub process_matches-Processed :
    (r : Redis) (clock : ℕ → ℕ) (fuel : ℕ) (st : MatchState r)
    → IsUp r
    → All (λ u. u ≢ "") (waiting r st)
    → length (waiting r st) + max_blocked_rejections_per_cycle < fuel
    → (st' : MatchState r) × (process_matches r fuel clock st ≡ some st')
      × Processed r max_blocked_rejections_per_cycle st st'
unfolding process_matches
process_matches-Processed r clock fuel st up names enough =
    process_from-Processed r up clock fuel max_blocked_rejections_per_cycle 0 st (omega arith) refl
      names enough
