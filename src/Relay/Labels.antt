-- ===== src/Relay/Labels.antt =====
-- The observations that messages of clients lead to in backend/main.go: their number and the values
-- of their labels.
use banana_talk.Prelude.{
  ℕ, suc, ℤ, ◌+◌, ◌*◌, ◌≤◌, String, ◌≡◌, refl, true, Option, none, some, List, [], ◌∷◌, ◌==◌, has,
  length, All, arith, eq_iff, inl, inr, Bool-cases,
}
use banana_talk.Relay.{
  GoValue, Entries, go_map, Message, Timings, number_field, at_key, as_text, stamp, role_label,
  observe, observe_phase, observe_wait, observe_phases, record_connect_metrics, handle_message,
  read_loop,
}

abbrev pub phases : List String
phases = "total" ∷ "first_track" ∷ "ice_gathering" ∷ "sdp_offer" ∷ "sdp_answer" ∷ []

abbrev pub roles : List String
roles = "offerer" ∷ "answerer" ∷ "unknown" ∷ []

abbrev pub IsLabel {ℓ} : {A : Type ℓ} → (String × String) × A → Type 0
IsLabel ((phase, role), v) = (has phases phase ≡ true) × (has roles role ≡ true)

-- From one state of the observations to another at most `c` more connection times and `q` more waits,
-- and labels out of the two lists only if there were some.
pub record Grows {Float : Type 0} (c q : ℕ) (t t' : Timings Float) : Type 0 where
  pub known : All IsLabel t.connect_time → All IsLabel t'.connect_time
  pub connect_time : length t'.connect_time ≤ length t.connect_time + c
  pub queue_wait : length t'.queue_wait ≤ length t.queue_wait + q

module _ {Float : Type 0} where
  Grows-same : (t : Timings Float) → Grows 0 0 t t
  Grows-same t = record { known = λ h. h; connect_time = omega arith; queue_wait = omega arith }

  Grows-then :
      (c q d e : ℕ) (t t' t'' : Timings Float)
      → Grows c q t t'
      → Grows d e t' t''
      → Grows (c + d) (q + e) t t''
  Grows-then c q d e t t' t'' g h = record {
    known = λ k. h.known (g.known k);
    connect_time = omega (arith, g.connect_time, h.connect_time);
    queue_wait = omega (arith, g.queue_wait, h.queue_wait);
  }

  Grows-within :
      (c q d e : ℕ) (t t' : Timings Float) → Grows c q t t' → c ≤ d → q ≤ e → Grows d e t t'
  Grows-within c q d e t t' g hc hq = record {
    known = g.known;
    connect_time = omega (arith, g.connect_time);
    queue_wait = omega (arith, g.queue_wait);
  }

  module _ (of_int : ℤ → Float) (per_thousand : Float → Float) where
    role_label-has : (role : String) → has roles (role_label Float of_int per_thousand role) ≡ true
    unfolding role_label
    role_label-has role = elim (Bool-cases (role == "offerer")) [
      | inl e ↦ rw (e, (eq_iff role "offerer").0 e) refl
      | inr e ↦ elim (Bool-cases (role == "answerer")) [
        | inl f ↦ rw (e, f, (eq_iff role "answerer").0 f) refl
        | inr f ↦ rw (e, f) refl
      ]
    ]

    observe-Grows :
        (phase role : String) (v : Option Float) (t : Timings Float)
        → has phases phase ≡ true
        → has roles role ≡ true
        → Grows 1 0 t (observe Float of_int per_thousand phase role v t)
    unfolding observe
    observe-Grows phase role none t hp hr =
        Grows-within 0 0 1 0 t t (Grows-same t) (omega arith) (omega arith)
    observe-Grows phase role (some v) t hp hr = record {
      known = λ k. ((hp, hr), k);
      connect_time = omega arith;
      queue_wait = omega arith;
    }

    observe_phase-Grows :
        (fields : Entries Float) (role phase key : String) (t : Timings Float)
        → has phases phase ≡ true
        → has roles role ≡ true
        → Grows 1 0 t (observe_phase Float of_int per_thousand fields role phase key t)
    unfolding observe_phase
    observe_phase-Grows fields role phase key t hp hr =
        observe-Grows phase role (number_field Float of_int per_thousand (at_key Float key fields))
          t hp hr

    observe_phases-Grows :
        (fields : Entries Float) (role : String) (t : Timings Float)
        → has roles role ≡ true
        → Grows 5 0 t (observe_phases Float of_int per_thousand fields role t)
    unfolding observe_phases
    observe_phases-Grows fields role t hr =
        let ob = observe_phase Float of_int per_thousand fields role in
        let t1 = ob "total" "first_frame_ms" t in
        let t2 = ob "first_track" "first_track_ms" t1 in
        let t3 = ob "ice_gathering" "ice_gathering_complete_ms" t2 in
        let t4 = ob "sdp_offer" "offer_sent_ms" t3 in
        let t5 = ob "sdp_answer" "answer_received_ms" t4 in
        Grows-then 4 0 1 0 t t4 t5
          (Grows-then 3 0 1 0 t t3 t4
            (Grows-then 2 0 1 0 t t2 t3
              (Grows-then 1 0 1 0 t t1 t2
                (observe_phase-Grows fields role "total" "first_frame_ms" t refl hr)
                (observe_phase-Grows fields role "first_track" "first_track_ms" t1 refl hr))
              (observe_phase-Grows fields role "ice_gathering" "ice_gathering_complete_ms" t2 refl
                hr))
            (observe_phase-Grows fields role "sdp_offer" "offer_sent_ms" t3 refl hr))
          (observe_phase-Grows fields role "sdp_answer" "answer_received_ms" t4 refl hr)

    observe_wait-Grows :
        (v : Option Float) (t : Timings Float)
        → Grows 0 1 t (observe_wait Float of_int per_thousand v t)
    unfolding observe_wait
    observe_wait-Grows none t = Grows-within 0 0 0 1 t t (Grows-same t) (omega arith) (omega arith)
    observe_wait-Grows (some v) t = record {
      known = λ k. k;
      connect_time = omega arith;
      queue_wait = omega arith;
    }

    record_connect_metrics-Grows :
        (v : GoValue Float) (t : Timings Float)
        → Grows 5 1 t (record_connect_metrics Float of_int per_thousand v t)
    unfolding record_connect_metrics
    record_connect_metrics-Grows (go_map fields) t =
        let role =
          role_label Float of_int per_thousand
            (as_text Float of_int per_thousand (at_key Float "role" fields)) in
        let t1 = observe_phases Float of_int per_thousand fields role t in
        let v = number_field Float of_int per_thousand (at_key Float "queue_wait_ms" fields) in
        Grows-then 5 0 0 1 t t1 (observe_wait Float of_int per_thousand v t1)
          (observe_phases-Grows fields role t
            (role_label-has (as_text Float of_int per_thousand (at_key Float "role" fields))))
          (observe_wait-Grows v t1)
    record_connect_metrics-Grows _ t =
        Grows-within 0 0 5 1 t t (Grows-same t) (omega arith) (omega arith)

    handle_message-Grows :
        (clients : List String) (msg : Message Float) (t : Timings Float)
        → Grows 5 1 t (handle_message Float of_int per_thousand clients msg t).1
    unfolding handle_message
    handle_message-Grows clients msg t =
        let idle = Grows-within 0 0 5 1 t t (Grows-same t) (omega arith) (omega arith) in
        elim (Bool-cases (msg.kind == "connect_metrics")) [
          | inl k ↦ rw k (record_connect_metrics-Grows msg.payload t)
          | inr k ↦ elim (Bool-cases (msg.to == "")) [
            | inl e ↦ rw (k, e) idle
            | inr e ↦ elim (Bool-cases (has clients msg.to)) [
              | inl c ↦ rw (k, e, c) idle
              | inr c ↦ rw (k, e, c) idle
            ]
          ]
        ]

    -- Whatever messages a connection sends, the labels of the observed connection times stay among five phases
    -- and three roles, and each message adds at most five connection times and one wait.
    pub read_loop-Grows :
        (sender : String) (rs : List (Option (Message Float) × List String)) (t : Timings Float)
        → Grows (5 * length rs) (length rs) t (read_loop Float of_int per_thousand sender rs t).1
    unfolding read_loop stamp
    read_loop-Grows sender [] t = Grows-same t
    read_loop-Grows sender ((none, clients) ∷ rs) t =
        Grows-within 0 0 (5 * suc (length rs)) (suc (length rs)) t t (Grows-same t) (omega arith)
          (omega arith)
    read_loop-Grows sender ((some msg, clients) ∷ rs) t =
        let stamped : Message Float = record msg { from = sender } in
        let t1 = (handle_message Float of_int per_thousand clients stamped t).1 in
        let t2 = (read_loop Float of_int per_thousand sender rs t1).1 in
        Grows-within (5 + 5 * length rs) (1 + length rs) (5 * suc (length rs)) (suc (length rs)) t
          t2
          (Grows-then 5 1 (5 * length rs) (length rs) t t1 t2
            (handle_message-Grows clients stamped t) (read_loop-Grows sender rs t1))
          (omega arith) (omega arith)
