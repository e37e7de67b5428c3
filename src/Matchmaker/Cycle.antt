-- ===== src/Matchmaker/Cycle.antt =====
-- One cycle of `processMatches` (backend/matchmaker.go) when no command fails: it ends within its
-- fuel, and what it leaves in the store and the collectors is given by `Drain`.
use banana_talk.Prelude.{
  ℕ, suc, ◌+◌, ◌<◌, String, ◌≡◌, refl, ap, sym, subst, ◌∙◌, true, false, Option, some, List, [],
  ◌∷◌, ◌++◌, length, arith,
}
use mathlib.Core.List.{append_assoc, append-nil}
use banana_talk.Redis.Commands.{Key, queue, session, notify, update}
use banana_talk.Redis.{Redis}
use banana_talk.Matchmaker.{MatchState}
use banana_talk.Matchmaker.Drain.{Drain, short, spent, matched, rejected}
use banana_talk.Matchmaker.Effects.{is_blocked}

-- The sessions after the matches, the later ones written last.
abbrev pub sessions_after : List (String × String) → (Key → Option String) → Key → Option String
sessions_after [] f = f
sessions_after ((a, b) ∷ ms) f =
    sessions_after ms (update (update f (session a) (some b)) (session b) (some a))

-- The messages published for the matches, oldest first.
abbrev pub notices : List (String × String) → List (Key × String)
notices [] = []
notices ((a, b) ∷ ms) = (notify a, b) ∷ (notify b, a) ∷ notices ms

module _ (r : Redis) where
  open r use {Store, keys, run}

  abbrev pub waiting : MatchState r → List String
  waiting st = (keys st.store).lists queue

  -- What a cycle that may still reject `n` pairs makes of the state `st`.
  pub record Processed (n : ℕ) (st st' : MatchState r) : Type 0 where
    pub pairs : List (String × String)
    pub rejections : ℕ
    pub drain :
        Drain (is_blocked (keys st.store).sets) n (waiting st) pairs (waiting st') rejections
    pub same_blocks : (keys st'.store).sets ≡ (keys st.store).sets
    pub sessions : (keys st'.store).strings ≡ sessions_after pairs (keys st.store).strings
    pub published : (keys st'.store).published ≡ (keys st.store).published ++ notices pairs
    pub matches_counted : st'.metrics.matches_total ≡ st.metrics.matches_total + length pairs
    pub rejections_counted :
        st'.metrics.blocked_pairings_total ≡ st.metrics.blocked_pairings_total + rejections

  module _ (n : ℕ) (st st1 : MatchState r)
      (same : (keys st1.store).sets ≡ (keys st.store).sets) where
    pub Processed-stop :
        length (waiting st) < 2
        → keys st1.store ≡ keys st.store
        → st1.metrics ≡ st.metrics
        → Processed n st st1
    Processed-stop h k m = record {
      pairs = [];
      rejections = 0;
      drain =
          subst (λ q. Drain (is_blocked (keys st.store).sets) n (waiting st) [] q 0)
            (ap (λ ks. ks.lists queue) (sym k)) (short h);
      same_blocks = same;
      sessions = rw k;
      published = rw (k, append-nil);
      matches_counted = rw m (omega arith);
      rejections_counted = rw m (omega arith);
    }

    module _ (a b : String) (q : List String) (w : waiting st ≡ a ∷ b ∷ q) where
      pub Processed-match :
          (st' : MatchState r)
          → is_blocked (keys st.store).sets a b ≡ false
          → waiting st1 ≡ q
          → (keys st1.store).strings
            ≡ update (update (keys st.store).strings (session a) (some b)) (session b) (some a)
          → (keys st1.store).published
            ≡ ((keys st.store).published ++ (notify a, b) ∷ []) ++ (notify b, a) ∷ []
          → st1.metrics.matches_total ≡ st.metrics.matches_total + 1
          → st1.metrics.blocked_pairings_total ≡ st.metrics.blocked_pairings_total
          → Processed n st1 st'
          → Processed n st st'
      Processed-match st' free left strings log m1 m2 p = record {
        pairs = (a, b) ∷ p.pairs;
        rejections = p.rejections;
        drain = rw w (matched free (rw (← left, ← same) p.drain));
        same_blocks = p.same_blocks ∙ same;
        sessions = p.sessions ∙ ap (sessions_after p.pairs) strings;
        published = p.published ∙ rw log (simp append_assoc);
        matches_counted = omega (arith, p.matches_counted);
        rejections_counted = omega (arith, p.rejections_counted);
      }

      pub Processed-reject :
          (st' : MatchState r)
          → is_blocked (keys st.store).sets a b ≡ true
          → waiting st1 ≡ q ++ a ∷ b ∷ []
          → (keys st1.store).strings ≡ (keys st.store).strings
          → (keys st1.store).published ≡ (keys st.store).published
          → st1.metrics.matches_total ≡ st.metrics.matches_total
          → st1.metrics.blocked_pairings_total ≡ st.metrics.blocked_pairings_total + 1
          → Processed n st1 st'
          → Processed (suc n) st st'
      Processed-reject st' stopped left strings log m1 m2 p = record {
        pairs = p.pairs;
        rejections = suc p.rejections;
        drain = rw w (rejected stopped (rw (← left, ← same) p.drain));
        same_blocks = p.same_blocks ∙ same;
        sessions = p.sessions ∙ ap (sessions_after p.pairs) strings;
        published = p.published ∙ rw log refl;
        matches_counted = omega (arith, p.matches_counted);
        rejections_counted = omega (arith, p.rejections_counted);
      }

  pub Processed-spent : (st : MatchState r) → Processed 0 st st
  Processed-spent st = record {
    pairs = [];
    rejections = 0;
    drain = spent;
    same_blocks = refl;
    sessions = refl;
    published = sym (append-nil _);
    matches_counted = omega arith;
    rejections_counted = omega arith;
  }
