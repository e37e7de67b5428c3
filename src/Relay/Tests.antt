-- ===== src/Relay/Tests.antt =====
-- A connection of backend/main.go that relays two messages and reports its timings. A number is an
-- integer over a power of 1000 here.
use banana_talk.Prelude.{
  ℕ, ◌+◌, ℤ, pos, String, ◌≡◌, refl, Option, none, some, List, [], ◌∷◌, length, ◌*◌,
}
use banana_talk.Relay.Inbox.{inbox, addressed, read_loop-inbox}
use banana_talk.Relay.Labels.{Grows, read_loop-Grows}
use banana_talk.Relay.{
  float64, go_string, go_map, no_entries, entry, Message, Timings, at_key, number_field, as_text,
  role_label, observe, observe_phase, observe_wait, observe_phases, record_connect_metrics,
  handle_message, read_loop,
}

abbrev Scaled : Type 0
Scaled = ℤ × ℕ

abbrev of_int : ℤ → Scaled
of_int n = (n, 0)

abbrev per_thousand : Scaled → Scaled
per_thousand (n, k) = (n, k + 1)

-- It names another sender, which the relay replaces.
abbrev offer : Message Scaled
offer = record { kind = "offer"; payload = go_string "sdp"; to = "bob"; from = "mallory" }

abbrev timings : Message Scaled
timings = record {
  kind = "connect_metrics";
  payload = go_map (
      entry "role" (go_string "offerer") (
        entry "first_frame_ms" (float64 (pos 1100, 0))
          (entry "queue_wait_ms" (go_string "long") no_entries)));
  to = "bob";
  from = "";
}

-- The table changes between reads, and nothing is read after the error.
abbrev reads : List (Option (Message Scaled) × List String)
reads =
    (some offer, "alice" ∷ "bob" ∷ [])
    ∷ (some timings, "alice" ∷ "bob" ∷ [])
    ∷ (some offer, "alice" ∷ [])
    ∷ (none, "alice" ∷ [])
    ∷ (some offer, "alice" ∷ "bob" ∷ [])
    ∷ []

abbrev no_timings : Timings Scaled
no_timings = record { connect_time = []; queue_wait = [] }

relays : read_loop Scaled of_int per_thousand "alice" reads no_timings ≡ (
  ("bob", record offer { from = "alice" }) ∷ [],
  record { connect_time = (("total", "offerer"), (pos 1100, 1)) ∷ []; queue_wait = [] },
)
unfolding read_loop handle_message record_connect_metrics observe_phases observe_wait observe_phase
    observe role_label number_field at_key as_text
relays = refl

read_loop-inbox_example :
    inbox of_int per_thousand "bob"
      (read_loop Scaled of_int per_thousand "alice" reads no_timings).0
    ≡ addressed of_int per_thousand "alice" "bob" reads
read_loop-inbox_example = read_loop-inbox of_int per_thousand "alice" "bob" reads no_timings refl

read_loop-Grows_example :
    Grows
      (5 * length reads)
      (length reads)
      no_timings
      (read_loop Scaled of_int per_thousand "alice" reads no_timings).1
read_loop-Grows_example = read_loop-Grows of_int per_thousand "alice" reads no_timings
