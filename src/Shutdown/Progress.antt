-- ===== src/Shutdown/Progress.antt =====
-- What each phase of `gracefulShutdown` of backend/shutdown.go has achieved, and by when, whatever
-- other goroutines do.
use banana_talk.Prelude.{
  ℕ, ◌+◌, ◌*◌, ◌≤◌, String, ◌≡◌, refl, ap, subst, ◌∙◌, inl, Bool, true, Option, has, length, arith,
}
use banana_talk.Redis.{Redis}
use banana_talk.Sql.{Environment}
use banana_talk.Http.{Request}
use banana_talk.Auth.{Payload}
use banana_talk.RateLimit.{Limits, Limiters, Origin}
use banana_talk.Backend.{Backend}
use banana_talk.Connection.{Moment, leave, handle_connections}
use banana_talk.Shutdown.{
  Phase, pausing, notifying, closing, stopping, Server, readiness_drain_pause, client_close_grace,
  mark_unready, enter, Step, paused, notify, waited, close, stops, connects, registers, leaves,
  serves, Reach, here, next,
}
use banana_talk.Shutdown.Covered.{
  Within, delete_key-Within, length-delete_key, Besides, Covered, Covered-next, Covered-all, Before,
  snapshot_time,
}
use banana_talk.Shutdown.Entered.{register-new, length-register, length-past_close}

module _ {r : Redis} where
  -- `w` bounds the time of a write, `n` the number of clients at the start.
  InPhase : ℕ → ℕ → Server r → Phase → Type 0
  InPhase w n s pausing = s.clock ≡ 0
  InPhase w n s (notifying rest) =
      (s.clock + w * length rest ≤ readiness_drain_pause + w * n)
      × Covered s.entered_late s.backend.clients rest s.notified
  InPhase w n s (closing rest) =
      (s.clock + w * length rest ≤ readiness_drain_pause + client_close_grace + 2 * (w * n))
      × Besides s.entered_late s.backend.clients s.notified
      × Covered s.entered_last s.backend.clients rest s.shut
  InPhase w n s stopping =
      (s.clock ≤ readiness_drain_pause + client_close_grace + 2 * (w * n))
      × Besides s.entered_late s.backend.clients s.notified
      × Besides s.entered_last s.backend.clients s.shut

  -- `n` handlers of /ws were in flight at the start.
  record Held (w n : ℕ) (b : Backend r) (s : Server r) : Type 0 where
    draining : s.shutting_down ≡ true
    old : Besides s.entered s.backend.clients b.clients
    fewer : length s.backend.clients + s.in_flight ≤ length b.clients + n
    few : length s.entered + s.in_flight ≤ n
    few_last : length s.entered_last ≤ length s.entered
    in_phase : InPhase w (length b.clients + n) s s.phase

  -- The other goroutines.
  InPhase-other :
      (w n : ℕ) (s : Server r) (b : Backend r) (p : Phase)
      → Within b.clients s.backend.clients
      → InPhase w n s p
      → InPhase w n (record s { backend = b }) p
  unfolding InPhase
  InPhase-other w n s b pausing hc h = h
  InPhase-other w n s b (notifying rest) hc (t, h) = (t, λ u k l. h u (hc u k) l)
  InPhase-other w n s b (closing rest) hc (t, f, h) =
      (t, λ u k l. f u (hc u k) l, λ u k l. h u (hc u k) l)
  InPhase-other w n s b stopping hc (t, f, h) =
      (t, λ u k l. f u (hc u k) l, λ u k l. h u (hc u k) l)

  Held-other :
      (w n : ℕ) (b : Backend r) (s : Server r) (b' : Backend r)
      → Within b'.clients s.backend.clients
      → length b'.clients ≤ length s.backend.clients
      → Held w n b s
      → Held w n b (record s { backend = b' })
  Held-other w n b s b' hc hl h = record {
    draining = h.draining;
    old = λ u k l. h.old u (hc u k) l;
    fewer = omega (arith, hl, h.fewer);
    few = h.few;
    few_last = h.few_last;
    in_phase = InPhase-other w (length b.clients + n) s b' s.phase hc h.in_phase;
  }

Held-start : {r : Redis} (w n : ℕ) (b : Backend r) → Held w n b (mark_unready n b)
unfolding InPhase
Held-start w n b = record {
  draining = refl;
  old = λ u k l. k;
  fewer = omega arith;
  few = omega arith;
  few_last = omega arith;
  in_phase = refl;
}

module _ {r : Redis} where
  InPhase-enter :
      (w n k : ℕ) (user : String) (s : Server r) (p : Phase)
      → InPhase w n s p
      → InPhase w n (enter p k user s) p
  unfolding InPhase
  InPhase-enter w n k user s pausing h = h
  InPhase-enter w n k user s (notifying rest) (t, h) = (
    t,
    λ u e l.
        let (old, early) = Before user s.entered_late _ _ (register-new user s.backend) u e l in
        h u old early,
  )
  InPhase-enter w n k user s (closing rest) (t, f, h) = (
    t,
    λ u e l.
        let (old, early) = Before user s.entered_late _ _ (register-new user s.backend) u e l in
        f u old early,
    λ u e l.
        let (old, early) = Before user s.entered_last _ _ (register-new user s.backend) u e l in
        h u old early,
  )
  InPhase-enter w n k user s stopping (t, f, h) = (
    t,
    λ u e l.
        let (old, early) = Before user s.entered_late _ _ (register-new user s.backend) u e l in
        f u old early,
    λ u e l.
        let (old, early) = Before user s.entered_last _ _ (register-new user s.backend) u e l in
        h u old early,
  )

  Held-enter :
      (w n k : ℕ) (b : Backend r) (user : String) (s : Server r)
      → s.in_flight ≡ k + 1
      → Held w n b s
      → Held w n b (enter s.phase k user s)
  Held-enter w n k b user s e h = record {
    draining = h.draining;
    old = λ u there l.
        let (old, early) = Before user s.entered _ _ (register-new user s.backend) u there l in
        h.old u old early;
    fewer = omega (arith, h.fewer, e, length-register user s.backend);
    few = omega (arith, h.few, e);
    few_last = omega (arith, h.few_last, length-past_close s.phase user s.entered_last);
    in_phase = InPhase-enter w (length b.clients + n) k user s s.phase h.in_phase;
  }

module _ {r : Redis} (env : Environment) {interval burst : ℕ} (l : Limits interval burst)
    (trust_xff : Bool) (validate : String → Option Payload) where
  -- While the server shuts down a request to /ws changes nothing.
  handle_connections-draining :
      (at : Moment) (req : Request) (from : Origin) (b : Backend r) (m : Limiters l)
      → (handle_connections r env at l trust_xff validate true req from b m).1 ≡ b
  unfolding handle_connections
  handle_connections-draining at req from b m = refl

  Held-Step :
      (w n : ℕ) (b : Backend r) {s t : Server r}
      → Held w n b s
      → Step env l trust_xff validate w s t
      → Held w n b t
  unfolding InPhase leave
  Held-Step w n b {s} h (paused list e same) =
      let c = subst (InPhase w (length b.clients + n) s) e h.in_phase in
      record {
        draining = h.draining;
        old = h.old;
        fewer = h.fewer;
        few = h.few;
        few_last = h.few_last;
        in_phase = (
          omega (
            arith,
            c,
            snapshot_time w (length b.clients + n) list s.backend.clients same
                (omega (arith, h.fewer)),
          ),
          λ u k l. inl (same.same u ∙ k),
        );
      }
  Held-Step w n b {s} h (notify time user rest e le) =
      let (c, p) = subst (InPhase w (length b.clients + n) s) e h.in_phase in
      record {
        draining = h.draining;
        old = h.old;
        fewer = h.fewer;
        few = h.few;
        few_last = h.few_last;
        in_phase = (
          omega (arith, c, le),
          Covered-next s.entered_late s.backend.clients rest s.notified user p,
        );
      }
  Held-Step w n b {s} h (waited list e same) =
      let (c, p) = subst (InPhase w (length b.clients + n) s) e h.in_phase in
      record {
        draining = h.draining;
        old = h.old;
        fewer = h.fewer;
        few = h.few;
        few_last = h.few_last;
        in_phase = (
          omega (
            arith,
            c,
            snapshot_time w (length b.clients + n) list s.backend.clients same
                (omega (arith, h.fewer)),
          ),
          Covered-all s.entered_late s.backend.clients s.notified p,
          λ u k l. inl (same.same u ∙ k),
        );
      }
  Held-Step w n b {s} h (close time user rest e le) =
      let (c, p, q) = subst (InPhase w (length b.clients + n) s) e h.in_phase in
      record {
        draining = h.draining;
        old = h.old;
        fewer = h.fewer;
        few = h.few;
        few_last = h.few_last;
        in_phase = (
          omega (arith, c, le),
          p,
          Covered-next s.entered_last s.backend.clients rest s.shut user q,
        );
      }
  Held-Step w n b {s} h (stops e) =
      let (c, p, q) = subst (InPhase w (length b.clients + n) s) e h.in_phase in
      record {
        draining = h.draining;
        old = h.old;
        fewer = h.fewer;
        few = h.few;
        few_last = h.few_last;
        in_phase = (omega (arith, c), p, Covered-all s.entered_last s.backend.clients s.shut q);
      }
  Held-Step w n b {s} h (connects at req from m) =
      let same =
        ap (λ d. (handle_connections r env at l trust_xff validate d req from s.backend m).1)
          h.draining
        ∙ handle_connections-draining at req from s.backend m in
      Held-other w n b s
        (handle_connections r env at l trust_xff validate s.shutting_down req from s.backend m).1
        (λ u k. subst (λ x. has x.clients u ≡ true) same k) (rw same (omega arith)) h
  Held-Step w n b {s} h (registers k user e) = Held-enter w n k b user s e h
  Held-Step w n b {s} h (leaves user) =
      Held-other w n b s (leave r user s.backend) (delete_key-Within user s.backend.clients)
        (length-delete_key user s.backend.clients) h
  Held-Step w n b {s} h (serves b' same) =
      Held-other w n b s b' (λ u k. rw (← same) k) (rw same (omega arith)) h

  Held-Reach :
      (w n : ℕ) (b : Backend r) {s t : Server r}
      → Held w n b s
      → Reach env l trust_xff validate w s t
      → Held w n b t
  Held-Reach w n b h here = h
  Held-Reach w n b h (next reach step) = Held-Step w n b (Held-Reach w n b h reach) step

  -- When `gracefulShutdown` gets to `server.Shutdown`, with `w` the longest time that a write or a
  -- close takes, while `n` handlers of /ws had found the flag unset and were under way when it was
  -- set, in whichever order these register clients, new requests to /ws come, connections end and
  -- other work is done that keeps the table of clients: at most `n` clients were registered since;
  -- every user who has an entry in the table had one at the start, if none of these was the user's,
  -- has been written `server_shutdown`, if none of the user's was registered after the snapshot of
  -- `broadcastServerShutdown`, and has had the connection closed, if none of the user's was
  -- registered after that of `closeAllClients`; and this took at most 4 s and twice `w` for each
  -- client of the start and each of the `n` handlers.
  pub Reach-Stopped :
      (w n : ℕ) (b : Backend r) {t : Server r}
      → Reach env l trust_xff validate w (mark_unready n b) t
      → t.phase ≡ stopping
      → (length t.entered ≤ n)
        × (length t.entered_last ≤ n)
        × Besides t.entered t.backend.clients b.clients
        × Besides t.entered_late t.backend.clients t.notified
        × Besides t.entered_last t.backend.clients t.shut
        × (t.clock ≤ readiness_drain_pause + client_close_grace + 2 * (w * (length b.clients + n)))
  unfolding InPhase
  Reach-Stopped w n b {t} reach e =
      let h = Held-Reach w n b (Held-start w n b) reach in
      let (time, told, closed) = subst (InPhase w (length b.clients + n) t) e h.in_phase in
      (omega (arith, h.few), omega (arith, h.few, h.few_last), h.old, told, closed, time)
