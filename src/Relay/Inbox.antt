-- ===== src/Relay/Inbox.antt =====
-- What the relay of backend/main.go writes to each user: the loop of `handleConnections` against a
-- filter of the messages that it reads.
use banana_talk.Prelude.{
  ℤ, String, ◌≡◌, refl, ap, ◌∙◌, false, not, ◌&&◌, Option, none, some, List, [], ◌∷◌, ◌==◌, eq_iff,
  if◌then◌else◌, has, eq_refl, inl, inr, Bool-cases,
}
use banana_talk.Relay.{Message, Timings, written, stamp, handle_message, read_loop}

module _ {Float : Type 0} (of_int : ℤ → Float) (per_thousand : Float → Float) where
  -- The messages written to one user, in their order.
  abbrev pub inbox : String → List (String × Message Float) → List (Message Float)
  inbox user [] = []
  inbox user ((to, msg) ∷ ws) = let rest = inbox user ws in if to == user then msg ∷ rest else rest

  -- What the reads before the first error written to `user`, in their order, if `user` has a connection
  -- at that time, with the true sender.
  abbrev pub addressed :
      String → String → List (Option (Message Float) × List String) → List (Message Float)
  addressed sender user [] = []
  addressed sender user ((none, clients) ∷ rs) = []
  addressed sender user ((some msg, clients) ∷ rs) =
      let rest = addressed sender user rs in
      if not (msg.kind == "connect_metrics") && msg.to == user && has clients user
      then record msg { from = sender } ∷ rest
      else rest

  -- One message, in front of later writes.
  inbox-handle_message :
      (user : String) (msg : Message Float) (clients : List String) (t : Timings Float)
      (ws : List (String × Message Float))
      → (user == "") ≡ false
      → inbox user (
          written Float of_int per_thousand
            (handle_message Float of_int per_thousand clients msg t).0
            ws)
        ≡ (if not (msg.kind == "connect_metrics") && msg.to == user && has clients user
            then msg ∷ inbox user ws
            else inbox user ws)
  unfolding handle_message written
  inbox-handle_message user msg clients t ws h = elim (Bool-cases (msg.kind == "connect_metrics")) [
    | inl k ↦ rw k refl
    | inr k ↦ elim (Bool-cases (msg.to == user)) [
      | inl u ↦
          let e = (eq_iff msg.to user).0 u in
          elim (Bool-cases (has clients user)) [
            | inl c ↦ rw (k, e, h, c, eq_refl user) refl
            | inr c ↦ rw (k, e, h, c, eq_refl user) refl
          ]
      | inr u ↦ elim (Bool-cases (msg.to == "")) [
        | inl e ↦ rw (k, e, u) refl
        | inr e ↦ elim (Bool-cases (has clients msg.to)) [
          | inl c ↦ rw (k, e, c, u) refl
          | inr c ↦ rw (k, e, c, u) refl
        ]
      ]
    ]
  ]

  -- A user whose name is not empty is written exactly the messages that the connection's user
  -- addressed to that user, in their order, each with the connection's user as its sender, whatever
  -- sender it named, if it is not a report of timings, comes before the first failed read and the
  -- addressed user is connected at that time.
  pub read_loop-inbox :
      (sender user : String) (rs : List (Option (Message Float) × List String)) (t : Timings Float)
      → (user == "") ≡ false
      → inbox user (read_loop Float of_int per_thousand sender rs t).0 ≡ addressed sender user rs
  unfolding read_loop stamp
  read_loop-inbox sender user [] t h = refl
  read_loop-inbox sender user ((none, clients) ∷ rs) t h = refl
  read_loop-inbox sender user ((some msg, clients) ∷ rs) t h =
      let stamped : Message Float = record msg { from = sender } in
      let t1 = (handle_message Float of_int per_thousand clients stamped t).1 in
      let ws = (read_loop Float of_int per_thousand sender rs t1).0 in
      inbox-handle_message user stamped clients t ws h
      ∙ ap
          (λ rest.
            if not (msg.kind == "connect_metrics") && msg.to == user && has clients user
            then stamped ∷ rest
            else rest)
          (read_loop-inbox sender user rs t1 h)
