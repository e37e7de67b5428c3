-- ===== src/Shutdown.antt =====
-- backend/shutdown.go, with what other goroutines do meanwhile: requests to /ws that are new, requests
-- to /ws whose handler had found the flag unset and is still under way, connections that end, and
-- other handlers. The clock counts nanoseconds from the start of `gracefulShutdown`.
pub mod Covered
pub mod Entered
pub mod Progress
pub mod Drained
pub mod Alone
mod Tests
use banana_talk.Prelude.{
  ℕ, ◌+◌, ◌-◌, ◌≤◌, String, ◌≡◌, Bool, true, Option, List, [], ◌∷◌, has, length,
}
use banana_talk.Redis.{Redis}
use banana_talk.Sql.{Environment}
use banana_talk.Http.{Request}
use banana_talk.Auth.{Payload}
use banana_talk.RateLimit.{Limits, Limiters, Origin}
use banana_talk.Backend.{Backend}
use banana_talk.Connection.{Moment, handle_connections, leave, register}

-- 25 s
abbrev pub shutdown_deadline : ℕ
shutdown_deadline = 25000000000

-- 3 s
abbrev pub readiness_drain_pause : ℕ
readiness_drain_pause = 3000000000

-- 1 s
abbrev pub client_close_grace : ℕ
client_close_grace = 1000000000

-- Where `gracefulShutdown` is: in the first pause, with clients left to notify, with clients left
-- to close, or past `closeAllClients`.
pub data Phase : Type 0 where
  pausing : Phase
  notifying closing : List String → Phase
  stopping : Phase

-- `shutting_down` is the flag; `notified` has the users to whom `server_shutdown` was written, `shut` those whose
-- connection `closeAllClients` has closed. At most `in_flight` handlers of /ws are still to register a client. Those that did so since the flag
-- was set are `entered`; `entered_late` are those of them after the snapshot of
-- `broadcastServerShutdown`, and `entered_last` after that of `closeAllClients`.
pub record Server (r : Redis) : Type 0 where
  pub backend : Backend r
  pub shutting_down : Bool
  pub phase : Phase
  pub clock : ℕ
  pub notified : List String
  pub shut : List String
  pub in_flight : ℕ
  pub entered : List String
  pub entered_late : List String
  pub entered_last : List String

-- What `range clients` goes through: each user of the table once, in some order.
pub record Enumerates (list clients : List String) : Type 0 where
  pub same : (user : String) → has list user ≡ has clients user
  pub size : length list ≡ length clients

-- With the user, if the snapshot of `broadcastServerShutdown` has been taken.
abbrev pub past_broadcast : Phase → String → List String → List String
past_broadcast pausing user users = users
past_broadcast (notifying rest) user users = user ∷ users
past_broadcast (closing rest) user users = user ∷ users
past_broadcast stopping user users = user ∷ users

-- With the user, if the snapshot of `closeAllClients` has been taken.
abbrev pub past_close : Phase → String → List String → List String
past_close pausing user users = users
past_close (notifying rest) user users = users
past_close (closing rest) user users = user ∷ users
past_close stopping user users = user ∷ users

module _ {r : Redis} where
  -- The flag is set while handlers that have read it before are under way.
  abbrev pub mark_unready : ℕ → Backend r → Server r
  mark_unready in_flight b = record {
    backend = b;
    shutting_down = true;
    phase = pausing;
    clock = 0;
    notified = [];
    shut = [];
    in_flight = in_flight;
    entered = [];
    entered_late = [];
    entered_last = [];
  }

  -- A handler of /ws that has passed its check of the flag puts its client into the table.
  abbrev pub enter : Phase → ℕ → String → Server r → Server r
  enter phase in_flight user s = record s {
    backend = register r user s.backend;
    in_flight = in_flight;
    entered = user ∷ s.entered;
    entered_late = past_broadcast phase user s.entered_late;
    entered_last = past_close phase user s.entered_last;
  }

  -- After the pause, with the snapshot that `broadcastServerShutdown` takes.
  abbrev pub begin_notifying : List String → Server r → Server r
  begin_notifying list s = record s {
    phase = notifying list;
    clock = s.clock + readiness_drain_pause;
  }

  -- One round of the loop; the write takes a time, and its error is only logged.
  abbrev pub notify_client : ℕ → String → List String → Server r → Server r
  notify_client time user rest s = record s {
    phase = notifying rest;
    clock = s.clock + time;
    notified = user ∷ s.notified;
  }

  -- After the second pause, with the snapshot that `closeAllClients` takes.
  abbrev pub begin_closing : List String → Server r → Server r
  begin_closing list s = record s { phase = closing list; clock = s.clock + client_close_grace }

  -- One round of the loop: the close frame and the end of the connection.
  abbrev pub close_client : ℕ → String → List String → Server r → Server r
  close_client time user rest s = record s {
    phase = closing rest;
    clock = s.clock + time;
    backend = record s.backend { closed = user ∷ s.backend.closed };
    shut = user ∷ s.shut;
  }

  abbrev pub stop : Server r → Server r
  stop s = record s { phase = stopping }

  -- What is left of the deadline for `server.Shutdown`.
  abbrev pub remaining : Server r → ℕ
  remaining s = shutdown_deadline - s.clock

  -- The loops alone, with the time of each write.
  abbrev pub broadcast_server_shutdown : (String → ℕ) → List String → Server r → Server r
  broadcast_server_shutdown times [] s = s
  broadcast_server_shutdown times (user ∷ rest) s =
      broadcast_server_shutdown times rest (notify_client (times user) user rest s)

  abbrev pub close_all_clients : (String → ℕ) → List String → Server r → Server r
  close_all_clients times [] s = s
  close_all_clients times (user ∷ rest) s =
      close_all_clients times rest (close_client (times user) user rest s)

  -- `gracefulShutdown` up to `server.Shutdown`, with nothing else under way; the two snapshots are
  -- the arguments.
  abbrev pub graceful_shutdown :
      (String → ℕ) → (String → ℕ) → List String → List String → Backend r → Server r
  graceful_shutdown writes closes first second b =
      let notified =
        broadcast_server_shutdown writes first (begin_notifying first (mark_unready 0 b)) in
      stop (close_all_clients closes second (begin_closing second notified))

  -- The read loops of these connections end, one after another, with their cleanup.
  abbrev pub leave_all : List String → Backend r → Backend r
  leave_all [] b = b
  leave_all (user ∷ users) b = leave_all users (leave r user b)

module _ {r : Redis} (env : Environment) {interval burst : ℕ} (l : Limits interval burst)
    (trust_xff : Bool) (validate : String → Option Payload) where
  -- A step of the shutdown, in which one write or close takes at most `w`, or of another goroutine.
  pub data Step (w : ℕ) (s : Server r) : Server r → Type 0 where
    paused :
        (list : List String)
        → s.phase ≡ pausing
        → Enumerates list s.backend.clients
        → Step w s (begin_notifying list s)
    notify :
        (time : ℕ) (user : String) (rest : List String)
        → s.phase ≡ notifying (user ∷ rest)
        → time ≤ w
        → Step w s (notify_client time user rest s)
    waited :
        (list : List String)
        → s.phase ≡ notifying []
        → Enumerates list s.backend.clients
        → Step w s (begin_closing list s)
    close :
        (time : ℕ) (user : String) (rest : List String)
        → s.phase ≡ closing (user ∷ rest)
        → time ≤ w
        → Step w s (close_client time user rest s)
    stops : s.phase ≡ closing [] → Step w s (stop s)
    -- A request to /ws whose handler starts now.
    connects :
        (at : Moment) (req : Request) (from : Origin) (m : Limiters l)
        → Step w s (record s {
          backend =
              (handle_connections r env at l trust_xff validate s.shutting_down req from s.backend
                m).1;
        })
    -- A handler of /ws that has found the flag unset gets to the table. What else it does is in
    -- `serves`.
    registers :
        (in_flight : ℕ) (user : String)
        → s.in_flight ≡ in_flight + 1
        → Step w s (enter s.phase in_flight user s)
    leaves : (user : String) → Step w s (record s { backend = leave r user s.backend })
    -- Any other work, which keeps the table of clients.
    serves : (b : Backend r) → b.clients ≡ s.backend.clients → Step w s (record s { backend = b })

  pub data Reach (w : ℕ) (s : Server r) : Server r → Type 0 where
    here : Reach w s s
    next : {t u : Server r} → Reach w s t → Step w t u → Reach w s u
