-- ===== src/Relay.antt =====
-- The relay of backend/main.go: `Message`, `handleMessage`, `recordConnectMetrics` with
-- `numberField`, and the loop of `handleConnections` that reads a connection. The floating-point
-- numbers are a parameter with the conversion of an integer and the division by 1000; the socket
-- and Go's JSON package decode what is read.
pub mod Inbox
pub mod Labels
mod Tests
use banana_talk.Prelude.{
  ℕ, ℤ, String, Bool, true, false, not, ◌&&◌, Option, none, some, List, [], ◌∷◌, ◌==◌,
  if◌then◌else◌, has,
}

module _ (Float : Type 0) where
  -- A Go value of type `interface{}` that has been decoded from JSON, and integers.
  mutual
    -- The entries of a map.
    pub data Entries : Type 0 where
      no_entries : Entries
      entry : (key : String) → (value : GoValue) → Entries → Entries

    pub data Elements : Type 0 where
      no_elements : Elements
      element : (value : GoValue) → Elements → Elements

    pub data GoValue : Type 0 where
      go_nil : GoValue
      float64 : Float → GoValue
      int int64 : ℤ → GoValue
      go_string : String → GoValue
      go_bool : Bool → GoValue
      go_map : Entries → GoValue
      go_slice : Elements → GoValue

  -- `payload[key]`; a missing key is nil.
  at_key : String → Entries → GoValue
  at_key key no_entries = go_nil
  at_key key (entry k v rest) = if k == key then v else at_key key rest

  -- `type` is the field `Type`, `to` and `from` are "" when missing.
  pub record Message : Type 0 where
    pub kind : String
    pub payload : GoValue
    pub to : String
    pub from : String

  -- What `connectTimeSeconds`, by its two labels phase and role, and `queueWaitSeconds` have
  -- observed, newest first.
  pub record Timings : Type 0 where
    pub connect_time : List ((String × String) × Float)
    pub queue_wait : List Float

  module _ (of_int : ℤ → Float) (per_thousand : Float → Float) where
    pub number_field : GoValue → Option Float
    number_field (float64 x) = some x
    number_field (int n) = some (of_int n)
    number_field (int64 n) = some (of_int n)
    number_field _ = none

    -- `payload["role"].(string)`, or "" for another value.
    as_text : GoValue → String
    as_text (go_string s) = s
    as_text _ = ""

    role_label : String → String
    role_label role =
        if not (role == "offerer") && not (role == "answerer") then "unknown" else role

    observe : String → String → Option Float → Timings → Timings
    observe phase role none t = t
    observe phase role (some v) t = record t {
      connect_time = ((phase, role), per_thousand v) ∷ t.connect_time;
    }

    observe_phase : Entries → String → String → String → Timings → Timings
    observe_phase fields role phase key t = observe phase role (number_field (at_key key fields)) t

    observe_wait : Option Float → Timings → Timings
    observe_wait none t = t
    observe_wait (some v) t = record t { queue_wait = per_thousand v ∷ t.queue_wait }

    observe_phases : Entries → String → Timings → Timings
    observe_phases fields role t =
        let t1 = observe_phase fields role "total" "first_frame_ms" t in
        let t2 = observe_phase fields role "first_track" "first_track_ms" t1 in
        let t3 = observe_phase fields role "ice_gathering" "ice_gathering_complete_ms" t2 in
        let t4 = observe_phase fields role "sdp_offer" "offer_sent_ms" t3 in
        observe_phase fields role "sdp_answer" "answer_received_ms" t4

    record_connect_metrics : GoValue → Timings → Timings
    record_connect_metrics (go_map fields) t =
        let role = role_label (as_text (at_key "role" fields)) in
        observe_wait (number_field (at_key "queue_wait_ms" fields)) (observe_phases fields role t)
    record_connect_metrics _ t = t

    -- The message that is written to the connection of another user, if any, and the observations.
    -- A write that fails is only logged.
    pub handle_message : List String → Message → Timings → Option (String × Message) × Timings
    handle_message clients msg t =
        if msg.kind == "connect_metrics"
        then (none, record_connect_metrics msg.payload t)
        else (if msg.to == ""
            then (none, t)
            else (if has clients msg.to then (some (msg.to, msg), t) else (none, t)))

    stamp : String → Message → Message
    stamp user msg = record msg { from = user }

    written : Option (String × Message) → List (String × Message) → List (String × Message)
    written none rest = rest
    written (some w) rest = w ∷ rest

    -- The writes of a connection's loop, oldest first, from what each read of its socket gives,
    -- `none` for an error, and the table of clients after that; a list that ends is a read that
    -- waits.
    pub read_loop :
        String → List (Option Message × List String) → Timings → List (String × Message) × Timings
    unfolding written stamp
    read_loop user [] t = ([], t)
    read_loop user ((none, clients) ∷ rs) t = ([], t)
    read_loop user ((some msg, clients) ∷ rs) t =
        let (write, t1) = handle_message clients (stamp user msg) t in
        let (writes, t2) = read_loop user rs t1 in (written write writes, t2)
