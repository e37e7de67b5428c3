-- ===== src/Shutdown/Alone.antt =====
-- `gracefulShutdown` of backend/shutdown.go with nothing else under way.
use banana_talk.Prelude.{
  ℕ, ◌≤◌, String, ◌≡◌, ◌+◌, ◌||◌, refl, ap, ◌∙◌, Bool, true, Option, List, [], ◌∷◌, has, arith,
}
use banana_talk.Redis.{Redis}
use banana_talk.Sql.{Environment}
use banana_talk.Auth.{Payload}
use banana_talk.RateLimit.{Limits}
use banana_talk.Backend.{Backend}
use banana_talk.Shutdown.{
  notifying, closing, stopping, Server, Enumerates, mark_unready, begin_notifying, notify_client,
  begin_closing, close_client, broadcast_server_shutdown, close_all_clients, graceful_shutdown,
  paused, notify, waited, close, stops, Reach, here, next,
}

-- The time that the calls for all users take.
abbrev pub total : (String → ℕ) → List String → ℕ
total times [] = 0
total times (user ∷ users) = times user + total times users

module _ {r : Redis} where
  -- What `broadcastServerShutdown` does, with the snapshot `list`.
  record Told (times : String → ℕ) (list : List String) (s t : Server r) : Type 0 where
    flag : t.shutting_down ≡ s.shutting_down
    notified : (user : String) → has t.notified user ≡ (has list user || has s.notified user)
    clock : t.clock ≡ s.clock + total times list
    backend : t.backend ≡ s.backend
    shut : t.shut ≡ s.shut

  broadcast_server_shutdown-Told :
      (times : String → ℕ) (list : List String) (s : Server r)
      → Told times list s (broadcast_server_shutdown times list s)
  broadcast_server_shutdown-Told times [] s = record {
    flag = refl;
    notified = λ u. refl;
    clock = omega arith;
    backend = refl;
    shut = refl;
  }
  broadcast_server_shutdown-Told times (x ∷ xs) s =
      let h = broadcast_server_shutdown-Told times xs (notify_client (times x) x xs s) in
      record {
        flag = h.flag;
        notified = λ u. h.notified u ∙ ground arith;
        clock = h.clock ∙ omega arith;
        backend = h.backend;
        shut = h.shut;
      }

  -- What `closeAllClients` does.
  record Shut (times : String → ℕ) (list : List String) (s t : Server r) : Type 0 where
    flag : t.shutting_down ≡ s.shutting_down
    notified : t.notified ≡ s.notified
    shut : (user : String) → has t.shut user ≡ (has list user || has s.shut user)
    closed :
        (user : String) → has t.backend.closed user ≡ (has list user || has s.backend.closed user)
    clock : t.clock ≡ s.clock + total times list
    rest : (xs : List String) → record t.backend { closed = xs } ≡ record s.backend { closed = xs }

  close_all_clients-Shut :
      (times : String → ℕ) (list : List String) (s : Server r)
      → Shut times list s (close_all_clients times list s)
  close_all_clients-Shut times [] s = record {
    flag = refl;
    notified = refl;
    shut = λ u. refl;
    closed = λ u. refl;
    clock = omega arith;
    rest = λ xs. refl;
  }
  close_all_clients-Shut times (x ∷ xs) s =
      let h = close_all_clients-Shut times xs (close_client (times x) x xs s) in
      record {
        flag = h.flag;
        notified = h.notified;
        shut = λ u. h.shut u ∙ ground arith;
        closed = λ u. h.closed u ∙ ground arith;
        clock = h.clock ∙ omega arith;
        rest = h.rest;
      }

module _ {r : Redis} (env : Environment) {interval burst : ℕ} (l : Limits interval burst)
    (trust_xff : Bool) (validate : String → Option Payload) (w : ℕ) where
  module _ (writes closes : String → ℕ) (fast : (user : String) → writes user ≤ w)
      (prompt : (user : String) → closes user ≤ w) where
    broadcast-Reach :
        (list : List String) {s t : Server r}
        → Reach env l trust_xff validate w s t
        → t.phase ≡ notifying list
        → Reach env l trust_xff validate w s (broadcast_server_shutdown writes list t)
          × ((broadcast_server_shutdown writes list t).phase ≡ notifying [])
          × ((broadcast_server_shutdown writes list t).backend ≡ t.backend)
    broadcast-Reach [] reach e = (reach, e, refl)
    broadcast-Reach (u ∷ us) reach e =
        broadcast-Reach us (next reach (notify (writes u) u us e (fast u))) refl

    close-Reach :
        (list : List String) {s t : Server r}
        → Reach env l trust_xff validate w s t
        → t.phase ≡ closing list
        → Reach env l trust_xff validate w s (close_all_clients closes list t)
          × ((close_all_clients closes list t).phase ≡ closing [])
    close-Reach [] reach e = (reach, e)
    close-Reach (u ∷ us) reach e =
        close-Reach us (next reach (close (closes u) u us e (prompt u))) refl

    -- `gracefulShutdown` with nothing else under way, for any two enumerations of the table of
    -- clients and any times of the writes and closes up to `w`, is a run of the step relation that
    -- gets to `server.Shutdown`. Then the flag is set; `server_shutdown` has been written to the users
    -- of the table and no others; the connections of these users have been closed, and no others in
    -- addition to those closed before; the time is that of both pauses and of each write and close;
    -- and the table of clients, the database, Redis and the collectors are as before.
    pub graceful_shutdown-Reach :
        (first second : List String) (b : Backend r)
        → Enumerates first b.clients
        → Enumerates second b.clients
        → let t = graceful_shutdown writes closes first second b in
          Reach env l trust_xff validate w (mark_unready 0 b) t
          × (t.phase ≡ stopping)
          × (t.shutting_down ≡ true)
          × ((user : String) → has t.notified user ≡ has b.clients user)
          × ((user : String) → has t.shut user ≡ has b.clients user)
          × ((user : String)
              → has t.backend.closed user ≡ (has b.clients user || has b.closed user))
          × (t.clock ≡ 3000000000 + total writes first + 1000000000 + total closes second)
          × (record t.backend { closed = b.closed } ≡ b)
    graceful_shutdown-Reach first second b hf hs =
        let (told, e, same) = broadcast-Reach first (next here (paused first refl hf)) refl in
        let (closed, e2) = close-Reach second (next told (waited second e (rw same hs))) refl in
        let f =
          broadcast_server_shutdown-Told writes first (begin_notifying first (mark_unready 0 b)) in
        let g = close_all_clients-Shut closes second (
          begin_closing second
            (broadcast_server_shutdown writes first (begin_notifying first (mark_unready 0 b)))) in
        (
          next closed (stops e2),
          refl,
          g.flag ∙ f.flag,
          λ user.
              ap (λ xs. has xs user) g.notified ∙ f.notified user ∙ ground (arith, hf.same user),
          λ user. g.shut user ∙ ground (arith, hs.same user, ap (λ xs. has xs user) f.shut),
          λ user.
              g.closed user ∙ ground (arith, hs.same user, ap (λ x. has x.closed user) f.backend),
          g.clock ∙ ground (arith, f.clock),
          g.rest b.closed
              ∙ ap {A = Backend r} {B = Backend r} (λ x. record x { closed = b.closed }) f.backend,
        )
