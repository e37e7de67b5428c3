-- ===== src/Matchmaker/Matches.antt =====
-- Who is matched by a cycle of `processMatches` (backend/matchmaker.go), and who is left waiting.
use mathlib.Core.List.{Perm, append-nil, Mem, Nodup, Nodup-cons, mem-cons_self, mem-cons_of_mem}
use mathlib.Core.List.Perm
use mathlib.Core.List.Nodup
use banana_talk.Prelude.{
  ℕ, ◌+◌, ◌≤◌, ◌<◌, String, ◌≡◌, ◌≢◌, refl, ap, sym, ◌∙◌, ◌⊎◌, Bool, false, Option, none, some,
  List, [], ◌∷◌, ◌++◌, eq_refl, length, has, arith, All, eq_false_of_ne,
}
use banana_talk.Redis.Commands.{Key, session, notify, blocks, update}
use banana_talk.Redis.{Redis, IsUp}
use banana_talk.Matchmaker.{MatchState, max_blocked_rejections_per_cycle, process_matches}
use banana_talk.Matchmaker.Drain.{
  Drain, short, spent, matched, rejected, members, IsAllBlocked, Drain-perm, Drain-unblocked,
  Drain-ends, Drain-fifo, Drain-starves, Drain-all_free,
}
use banana_talk.Matchmaker.Effects.{is_blocked}
use banana_talk.Matchmaker.Cycle.{waiting, notices, sessions_after, Processed}
use banana_talk.Matchmaker.Loop.{process_matches-Processed}

some_inj {ℓ} : {A : Type ℓ} {x y : A} → some x ≡ some y → x ≡ y
some_inj {x} e = ap (elim [ none ↦ x | some z ↦ z ]) e

All-of_not_mem : (a : String) (l : List String) → ¬ Mem a l → All (λ u. u ≢ a) l
All-of_not_mem a [] h = tt
All-of_not_mem a (x ∷ xs) h =
    (λ e. h (rw e mem-cons_self), All-of_not_mem a xs (λ m. h (mem-cons_of_mem x m)))

sessions_after-other :
    (u : String) (ms : List (String × String)) (f : Key → Option String)
    → All (λ v. v ≢ u) (members ms)
    → sessions_after ms f (session u) ≡ f (session u)
sessions_after-other u [] f h = refl
sessions_after-other u ((a, b) ∷ ms) f (ha, (hb, h)) =
    sessions_after-other u ms (update (update f (session a) (some b)) (session b) (some a)) h
    ∙ rw (eq_false_of_ne u b (λ e. hb (sym e))) (rw (eq_false_of_ne u a (λ e. ha (sym e))) refl)

-- Each of the two has the other as the peer.
abbrev pub ArePeers : (Key → Option String) → String × String → Type 0
ArePeers f m = (f (session m.0) ≡ some m.1) × (f (session m.1) ≡ some m.0)

sessions_after-ArePeers :
    (ms : List (String × String)) (f : Key → Option String)
    → Nodup (members ms)
    → All (ArePeers (sessions_after ms f)) ms
sessions_after-ArePeers [] f h = tt
sessions_after-ArePeers ((a, b) ∷ ms) f h =
    let (na, h1) = Nodup-cons.0 h in
    let (nb, h2) = Nodup-cons.0 h1 in
    let (ab, others) = All-of_not_mem a (b ∷ members ms) na in
    let g = update (update f (session a) (some b)) (session b) (some a) in
    (
      (
        sessions_after-other a ms g others
            ∙ rw (eq_false_of_ne a b (λ e. ab (sym e))) (rw (eq_refl a) refl),
        sessions_after-other b ms g (All-of_not_mem b (members ms) nb) ∙ rw (eq_refl b) refl,
      ),
      sessions_after-ArePeers ms g h2,
    )

-- A list that begins with the same user twice gives a pair of this user.
Drain-self :
    {blocked : String → String → Bool} {n k : ℕ} {q l : List String} {ms : List (String × String)}
    (u : String) (rest : List String)
    → Drain blocked n q ms l k
    → 0 < n
    → q ≡ u ∷ u ∷ rest
    → blocked u u ≡ false
    → (more : List (String × String)) × (ms ≡ (u, u) ∷ more)
Drain-self u rest (short h) pos e free = absurd (omega (arith, h, ap length e))
Drain-self u rest spent pos e free = absurd (omega arith)
Drain-self u rest (matched {ms} h d) pos e free = (ms, ground arith)
Drain-self u rest (rejected h d) pos e free = absurd (ground arith)

module _ (r : Redis) (clock : ℕ → ℕ) (fuel : ℕ) (st st' : MatchState r) (up : IsUp r)
    (names : All (λ u. u ≢ "") (waiting r st))
    (enough : length (waiting r st) + max_blocked_rejections_per_cycle < fuel)
    (runs : process_matches r fuel clock st ≡ some st') where
  open r use {keys}

  cycle : Processed r max_blocked_rejections_per_cycle st st'
  cycle =
      let (st1, e, p) = process_matches-Processed r clock fuel st up names enough in
      rw (some_inj (sym runs ∙ e)) p

  -- While no Redis command fails, no waiting user is named "" and the fuel is more than the number
  -- of those waiting and 32:
  -- The messages of a cycle announce pairs, each to both of its users, and no announced pair is
  -- blocked by either of the two. The announced users and those still waiting are, with their
  -- multiplicities, the users that waited before: nobody is lost or made up.
  pub match_safety :
      (pairs : List (String × String)) × ((keys st'.store).published
        ≡ (keys st.store).published ++ notices pairs)
      × All (λ m. is_blocked (keys st.store).sets m.0 m.1 ≡ false) pairs
      × Perm (waiting r st) (members pairs ++ waiting r st')
  match_safety =
      let p = cycle in (p.pairs, p.published, Drain-unblocked p.drain, Drain-perm p.drain)

  -- While no Redis command fails, no waiting user is named "" and the fuel is more than the number
  -- of those waiting and 32:
  -- A cycle stops only when fewer than two users wait or when it has rejected 32 pairs, and it never
  -- rejects more.
  pub match_exhausts :
      (rejections : ℕ) × (st'.metrics.blocked_pairings_total
        ≡ st.metrics.blocked_pairings_total + rejections)
      × (rejections ≤ max_blocked_rejections_per_cycle)
      × ((length (waiting r st') < 2) ⊎ (rejections ≡ max_blocked_rejections_per_cycle))
  match_exhausts =
      let p = cycle in
      let (bound, ends) = Drain-ends p.drain in (p.rejections, p.rejections_counted, bound, ends)

  -- While no Redis command fails, no waiting user is named "" and the fuel is more than the number
  -- of those waiting and 32:
  -- While no user has blocked another, a cycle matches the users two by two in the order in which
  -- they wait, and leaves at most one.
  pub match_fifo :
      ((a b : String) → is_blocked (keys st.store).sets a b ≡ false)
      → (pairs : List (String × String)) × ((keys st'.store).published
          ≡ (keys st.store).published ++ notices pairs)
        × (waiting r st ≡ members pairs ++ waiting r st')
        × (length (waiting r st') < 2)
  match_fifo free =
      let p = cycle in
      let none_rejected = Drain-all_free free p.drain in
      let (bound, ends) = Drain-ends p.drain in
      (p.pairs, p.published, Drain-fifo p.drain none_rejected, ground (arith, ends, none_rejected))

  -- While no Redis command fails, no waiting user is named "" and the fuel is more than the number
  -- of those waiting and 32:
  -- If the waiting users, taken two by two, are all blocked pairs, a cycle matches nobody: it
  -- publishes nothing and leaves a list of the same kind, whoever else in the list could be paired.
  pub match_starves :
      IsAllBlocked (is_blocked (keys st.store).sets) (waiting r st)
      → ((keys st'.store).published ≡ (keys st.store).published)
        × (st'.metrics.matches_total ≡ st.metrics.matches_total)
        × IsAllBlocked (is_blocked (keys st'.store).sets) (waiting r st')
  match_starves stuck =
      let p = cycle in
      let (nobody, still) = Drain-starves p.drain stuck in
      (
        p.published ∙ rw (nobody, append-nil) refl,
        omega (arith, p.matches_counted, ap length nobody),
        rw p.same_blocks still,
      )

  -- While no Redis command fails, no waiting user is named "" and the fuel is more than the number
  -- of those waiting and 32:
  -- If no user waits twice, then after a cycle each announced pair has a session, in both
  -- directions.
  pub match_sessions :
      Nodup (waiting r st)
      → (pairs : List (String × String)) × ((keys st'.store).published
          ≡ (keys st.store).published ++ notices pairs)
        × All (ArePeers (keys st'.store).strings) pairs
  match_sessions distinct =
      let p = cycle in
      let once = Nodup.of_append_left _ (Perm.nodup (Drain-perm p.drain) distinct) in
      (p.pairs, p.published, rw p.sessions (sessions_after-ArePeers p.pairs _ once))

  -- While no Redis command fails, no waiting user is named "" and the fuel is more than the number
  -- of those waiting and 32:
  -- A user who waits twice at the head of the list, as after a second connection, is matched with
  -- himself and told so, unless he stands in his own block set.
  pub match_self :
      (u : String) (rest : List String)
      → waiting r st ≡ u ∷ u ∷ rest
      → has ((keys st.store).sets (blocks u)) u ≡ false
      → (more : List (Key × String)) × ((keys st'.store).published
          ≡ (keys st.store).published ++ (notify u, u) ∷ (notify u, u) ∷ more)
  match_self u rest w free =
      let p = cycle in
      let (more, e) = Drain-self u rest p.drain (omega arith) w (rw free refl) in
      (notices more, p.published ∙ rw e refl)
