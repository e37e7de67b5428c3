-- ===== src/Matchmaker/Effects.antt =====
-- What the methods of backend/matchmaker.go do to the keys when no command fails.
use banana_talk.Prelude.{
  ℕ, ◌+◌, String, List, ◌≡◌, refl, inl, inr, Bool, [], ◌∷◌, ◌||◌, ltb, if◌then◌else◌, length, has,
  Bool-cases,
}
use banana_talk.Redis.Commands.{
  Key, Keyspace, queue, trigger, enqueued_at, session, notify, blocks, int_text, rpush, lrem, llen,
  lpop, hset, hdel, hmget, sismember, del, set, publish, value, effect,
}
use banana_talk.Redis.{ok, Redis, IsUp, run-at, after-at}
use banana_talk.Matchmaker.{
  MatchState, first_two, table, session_ttl, observe_all, add, remove, pop_pair_script, try_match,
  blocks_one, pair_blocked, match_pair, delete_session, clear_blocks,
}

-- Either user has the other in the block set.
abbrev pub is_blocked : (Key → List String) → String → String → Bool
is_blocked sets a b = has (sets (blocks a)) b || has (sets (blocks b)) a

-- The pair that `tryMatch` returns.
abbrev pub offered : Keyspace → String × String
offered ks =
    if ltb (length (ks.lists queue)) 2
    then ("", "")
    else first_two (table (value (lpop queue) ks) (value (lpop queue) (effect (lpop queue) ks)))

-- The keys after one run of the script.
abbrev pub popped : Keyspace → Keyspace
popped ks =
    if ltb (length (ks.lists queue)) 2 then ks else effect (lpop queue) (effect (lpop queue) ks)

-- The keys after the matching branch of a round.
abbrev pub matched_keys : String → String → Keyspace → Keyspace
matched_keys a b ks = effect (publish (notify b) a) (
    effect (publish (notify a) b) (
      effect (set (session b) a session_ttl)
        (effect (set (session a) b session_ttl) (effect (hdel enqueued_at (a ∷ b ∷ [])) ks))))

module _ (r : Redis) (up : IsUp r) where
  open r use {Store, keys, run}

  pub add-keys :
      (now : ℕ) (user : String) (s : Store)
      → keys (add r now user s)
        ≡ effect (publish trigger "1") (
            effect
              (hset enqueued_at user (int_text now))
              (effect (rpush queue (user ∷ [])) (keys s)))
  unfolding add
  add-keys now user s =
      let (s1, e, k) = run-at r up (rpush queue (user ∷ [])) s refl in
      rw (e, add)
        (after-at r up (publish trigger "1") _
          (after-at r up (hset enqueued_at user (int_text now)) s1 k))

  pub remove-keys :
      (user : String) (s : Store)
      → keys (remove r user s)
        ≡ effect (hdel enqueued_at (user ∷ [])) (effect (lrem queue user) (keys s))
  unfolding remove
  remove-keys user s =
      let (s1, e, k) = run-at r up (lrem queue user) s refl in
      rw (e, remove) (after-at r up (hdel enqueued_at (user ∷ [])) s1 k)

  pub delete_session-keys :
      (user : String) (s : Store)
      → keys (delete_session r user s) ≡ effect (del (session user)) (keys s)
  unfolding delete_session
  delete_session-keys user s = after-at r up (del (session user)) s refl

  pub clear_blocks-keys :
      (user : String) (s : Store)
      → keys (clear_blocks r user s) ≡ effect (del (blocks user)) (keys s)
  unfolding clear_blocks
  clear_blocks-keys user s = after-at r up (del (blocks user)) s refl

  pub try_match-keys :
      (s : Store)
      → (s' : Store) × (try_match r s ≡ ok (offered (keys s)) s') × (keys s' ≡ popped (keys s))
  unfolding try_match pop_pair_script
  try_match-keys s =
      let (s1, e1, k1) = run-at r up (llen queue) s refl in
      let (s2, e2, k2) = run-at r up (lpop queue) s1 k1 in
      let (s3, e3, k3) = run-at r up (lpop queue) s2 k2 in
      elim (Bool-cases (ltb (length ((keys s).lists queue)) 2)) [
        | inl few ↦ (s1, rw (e1, try_match, pop_pair_script) (rw few refl), rw few k1)
        | inr many ↦
            (s3, rw (e1, try_match, pop_pair_script) (rw many (rw e2 (rw e3 refl))), rw many k3)
      ]

  blocks_one-keys :
      (a b : String) (s : Store) {ks : Keyspace}
      → keys s ≡ ks
      → (s' : Store) × (blocks_one r a b s ≡ (has (ks.sets (blocks a)) b, s')) × (keys s' ≡ ks)
  unfolding blocks_one
  blocks_one-keys a b s h =
      let (s1, e, k) = run-at r up (sismember (blocks a) b) s h in (s1, rw (e, blocks_one), k)

  pub pair_blocked-keys :
      (a b : String) (s : Store) {ks : Keyspace}
      → keys s ≡ ks
      → (s' : Store) × (pair_blocked r a b s ≡ (is_blocked ks.sets a b, s')) × (keys s' ≡ ks)
  unfolding pair_blocked
  pair_blocked-keys a b s {ks} h =
      let (s1, e1, k1) = blocks_one-keys a b s h in
      let (s2, e2, k2) = blocks_one-keys b a s1 k1 in
      elim (Bool-cases (has (ks.sets (blocks a)) b)) [
        | inl hit ↦ (s1, rw (e1, pair_blocked) (rw hit refl), k1)
        | inr miss ↦ (s2, rw (e1, pair_blocked) (rw miss e2), k2)
      ]

  pub match_pair-keys :
      (now : ℕ) (a b : String) (st : MatchState r) {ks : Keyspace}
      → keys st.store ≡ ks
      → keys (match_pair r now a b st).store ≡ matched_keys a b ks
  unfolding match_pair
  match_pair-keys now a b st h =
      let (s1, e, k) = run-at r up (hmget enqueued_at (a ∷ b ∷ [])) st.store h in
      rw (e, match_pair)
        (after-at r up (publish (notify b) a) _ (
          after-at r up (publish (notify a) b) _ (
            after-at r up (set (session b) a session_ttl) _ (
              after-at r up (set (session a) b session_ttl) _
                (after-at r up (hdel enqueued_at (a ∷ b ∷ [])) s1 k)))))

  -- The collectors after a match: one match more, and the two waiting times.
  pub match_pair-metrics :
      (now : ℕ) (a b : String) (st : MatchState r) {ks : Keyspace}
      → keys st.store ≡ ks
      → (match_pair r now a b st).metrics ≡ record st.metrics {
        matches_total = st.metrics.matches_total + 1;
        match_latency =
            observe_all now (value (hmget enqueued_at (a ∷ b ∷ [])) ks) st.metrics.match_latency;
      }
  unfolding match_pair
  match_pair-metrics now a b st h =
      let (s1, e, k) = run-at r up (hmget enqueued_at (a ∷ b ∷ [])) st.store h in rw (e, match_pair)
