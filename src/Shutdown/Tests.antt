-- ===== src/Shutdown/Tests.antt =====
-- A shutdown of backend/shutdown.go with two clients, each of which keeps every write waiting, and
-- with a third one who gets in late.
use banana_talk.Prelude.{
  ℕ, ◌+◌, ◌*◌, ◌||◌, ◌≤◌, ◌<◌, String, ◌≡◌, refl, true, false, [], ◌∷◌, has, length, arith,
}
use banana_talk.Redis.Memory.{memory, memory-IsUp}
use banana_talk.RateLimit.Bucket.{bucket}
use banana_talk.Backend.Samples.{calm, knows, new_backend}
use banana_talk.Backend.{Backend}
use banana_talk.Connection.{register}
use banana_talk.Shutdown.Covered.{Within, Besides}
use banana_talk.Shutdown.Progress.{Reach-Stopped}
use banana_talk.Shutdown.Drained.{Gone, leave_all-Reach}
use banana_talk.Shutdown.Alone.{total, graceful_shutdown-Reach}
use banana_talk.Shutdown.{
  Server, Enumerates, Reach, here, next, paused, notify, waited, close, stops, registers, stopping,
  shutdown_deadline, readiness_drain_pause, client_close_grace, mark_unready, begin_notifying,
  begin_closing, enter, stop, broadcast_server_shutdown, close_all_clients, graceful_shutdown,
  leave_all,
}

abbrev two_clients : Backend memory
two_clients = record new_backend { clients = "alice" ∷ "bob" ∷ [] }

-- 10 s, the deadline of a write
abbrev write_wait : ℕ
write_wait = 10000000000

abbrev slow : String → ℕ
slow user = write_wait

abbrev last : Server memory
last = graceful_shutdown slow slow ("bob" ∷ "alice" ∷ []) ("alice" ∷ "bob" ∷ []) two_clients

swapped : Enumerates ("bob" ∷ "alice" ∷ []) two_clients.clients
swapped = record { same = λ u. ground arith; size = refl }

in_order : Enumerates ("alice" ∷ "bob" ∷ []) two_clients.clients
in_order = record { same = λ u. refl; size = refl }

-- Two such clients are enough to use up the deadline before `server.Shutdown`.
overdue : shutdown_deadline < last.clock
overdue = omega arith

graceful_shutdown-Reach_example :
    Reach calm bucket false knows write_wait (mark_unready 0 two_clients) last
    × (last.phase ≡ stopping)
    × (last.shutting_down ≡ true)
    × ((user : String) → has last.notified user ≡ has two_clients.clients user)
    × ((user : String) → has last.shut user ≡ has two_clients.clients user)
    × ((user : String)
        → has last.backend.closed user
          ≡ (has two_clients.clients user || has two_clients.closed user))
    × (last.clock
        ≡ 3000000000
          + total slow ("bob" ∷ "alice" ∷ [])
          + 1000000000
          + total slow ("alice" ∷ "bob" ∷ []))
    × (record last.backend { closed = two_clients.closed } ≡ two_clients)
graceful_shutdown-Reach_example =
    graceful_shutdown-Reach calm bucket false knows write_wait slow slow (λ u. omega arith)
      (λ u. omega arith) ("bob" ∷ "alice" ∷ []) ("alice" ∷ "bob" ∷ []) two_clients swapped in_order

-- A handler that was under way when the flag was set registers after the snapshot of
-- `closeAllClients`.
abbrev notifying_both : Server memory
notifying_both = begin_notifying ("bob" ∷ "alice" ∷ []) (mark_unready 1 two_clients)

abbrev closing_both : Server memory
closing_both =
    begin_closing ("alice" ∷ "bob" ∷ [])
      (broadcast_server_shutdown slow ("bob" ∷ "alice" ∷ []) notifying_both)

abbrev closed_both : Server memory
closed_both = close_all_clients slow ("alice" ∷ "bob" ∷ []) closing_both

abbrev ended : Server memory
ended = enter stopping 0 "carol" (stop closed_both)

abbrev From : Server memory → Type 0
From = Reach calm bucket false knows write_wait (mark_unready 1 two_clients)

notified_both : From (broadcast_server_shutdown slow ("bob" ∷ "alice" ∷ []) notifying_both)
notified_both =
    next
      (next (next here (paused ("bob" ∷ "alice" ∷ []) refl swapped))
        (notify write_wait "bob" ("alice" ∷ []) refl (omega arith)))
      (notify write_wait "alice" [] refl (omega arith))

ended_reached : From ended
ended_reached =
    next
      (next
        (next
          (next (next notified_both (waited ("alice" ∷ "bob" ∷ []) refl in_order))
            (close write_wait "alice" ("bob" ∷ []) refl (omega arith)))
          (close write_wait "bob" [] refl (omega arith)))
        (stops refl))
      (registers 0 "carol" refl)

-- Its client has an entry, and its connection is not closed.
left_open : (has ended.backend.clients "carol" ≡ true) × (has ended.backend.closed "carol" ≡ false)
unfolding register
left_open = (refl, refl)

Reach-Stopped_example :
    (length ended.entered ≤ 1)
    × (length ended.entered_last ≤ 1)
    × Besides ended.entered ended.backend.clients two_clients.clients
    × Besides ended.entered_late ended.backend.clients ended.notified
    × Besides ended.entered_last ended.backend.clients ended.shut
    × (ended.clock
        ≤ readiness_drain_pause
          + client_close_grace
          + 2 * (write_wait * (length two_clients.clients + 1)))
Reach-Stopped_example =
    Reach-Stopped calm bucket false knows write_wait 1 two_clients ended_reached refl

leave_all-Reach_example :
    (length ended.entered_last ≤ 1)
    × Within (leave_all ended.shut ended.backend).clients ended.entered_last
    × ((user : String)
        → has ended.backend.clients user ≡ true
        → has ended.entered_last user ≡ false
        → Gone user (leave_all ended.shut ended.backend))
leave_all-Reach_example =
    leave_all-Reach calm bucket false knows write_wait memory-IsUp 1 two_clients ended_reached refl
