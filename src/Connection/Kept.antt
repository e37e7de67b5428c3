-- ===== src/Connection/Kept.antt =====
-- A request to /ws of backend/main.go, and the cleanup of a connection, keep the backend sound.
use banana_talk.Prelude.{
  ℕ, String, ◌≡◌, ◌≢◌, refl, sym, ap, subst, ◌∙◌, inl, inr, Bool, true, false, not, Option, some,
  List, ◌==◌, eq_iff, has, All-keep_if, Bool-cases, arith,
}
use banana_talk.Redis.Commands.{queue, blocks}
use banana_talk.Redis.{Redis, IsUp}
use banana_talk.Sql.{Environment, Conn, Result, ok, err}
use banana_talk.Db.Lookups.{row_of, upsert_user-Found}
use banana_talk.Db.Extends.{id_of}
use banana_talk.Db.Grows.{
  Grows, Grows-trans, upsert_user-Grows, is_user_banned-Grows, load_user_blocks-Grows,
}
use banana_talk.Db.{upsert_user, is_user_banned, load_user_blocks}
use banana_talk.Http.{Request}
use banana_talk.Auth.{Payload, bearer_token, verify_token}
use banana_talk.Auth.Verified.{verify_token-ne}
use banana_talk.RateLimit.{Limits, Limiters, Origin, allow}
use banana_talk.Backend.Sound.{
  Sound-Grows, Sound-keys, Sound-conn, IsSound, hydrate_blocks-Sound, add-Sound,
}
use banana_talk.Backend.{Backend}
use banana_talk.Connection.Left.{leave-has, leave-queue}
use banana_talk.Connection.{
  Moment, leave, register, start, hydrate, admit_unbanned, admit_known, admit, unlimited,
  handle_connections,
}
use banana_talk.Connection.Loaded.{load_user_blocks-BlockedIn, load_user_blocks_complete}

module _ (r : Redis) (up : IsUp r) where
  open r use {keys}

  leave-fewer :
      (user : String) (b : Backend r) (u v : String)
      → has ((keys (leave r user b).store).sets (blocks u)) v ≡ true
      → has ((keys b.store).sets (blocks u)) v ≡ true
  leave-fewer user b u v e =
      let p = leave-has r up user b in
      elim (Bool-cases (u == user)) [
        | inl same ↦
            let k =
              ap (λ w. has ((keys (leave r user b).store).sets (blocks w)) v)
                (sym ((eq_iff u user).0 same))
              ∙ e in
            absurd (ground (arith, k, ap (λ l. has l v) p.2))
        | inr other ↦
            sym
              (ap (λ l. has l v) (p.5 u (λ w. absurd (ground (arith, (eq_iff u user).1 w, other)))))
            ∙ e
      ]

-- If the first message of a connection fails, then not for a user of `G`.
abbrev pub Quiet :
    (String → String → Type 0) → Moment → (String → Option Payload) → Request → Type 0
Quiet G at validate req =
    at.greets ≡ false
    → (v : String) → G (verify_token validate at.seconds (bearer_token req)).0 v
    → ⊥

module _ {G : String → String → Type 0} (r : Redis) (up : IsUp r) where
  open r use {keys}

  pub leave-IsSound :
      (user : String) (b : Backend r)
      → ((v : String) → G user v → ⊥)
      → IsSound G b
      → IsSound G (leave r user b)
  unfolding leave
  leave-IsSound user b free h =
      Sound-keys (keys (leave r user b).store)
        (rw (leave-queue r up user b)
          (All-keep_if (λ u. u ≢ "") (λ y. not (y == user)) ((keys b.store).lists queue) h.named))
        (leave-fewer r up user b)
        (λ u v g e.
          ap (λ l. has l v)
            ((leave-has r up user b).5 u (λ w. absurd (free v (subst (λ x. G x v) w g))))
          ∙ e)
        h

  start-IsSound :
      (at : Moment) (user : String) (b : Backend r)
      → user ≢ ""
      → (at.greets ≡ false → (v : String) → G user v → ⊥)
      → IsSound G b
      → IsSound G (start r at user b).1
  unfolding start register
  start-IsSound at user b ne quiet h = elim (Bool-cases at.upgrades) [
    | inr kept_http ↦ rw kept_http h
    | inl upgraded ↦ elim (Bool-cases at.greets) [
      | inr unsent ↦ rw (upgraded, unsent) (leave-IsSound user (register r user b) (quiet unsent) h)
      | inl greeted ↦ rw (upgraded, greeted) (add-Sound r up at.nanoseconds user b.store ne h)
    ]
  ]

  module _ (env : Environment) (at : Moment) (user : String) (ne : user ≢ "")
      (quiet : at.greets ≡ false → (v : String) → G user v → ⊥) where
    hydrate-IsSound :
        (b : Backend r) (id : ℕ) (x : Result (List String)) (c : Conn)
        → id_of (row_of user b.conn.tables) ≡ some id
        → load_user_blocks env id b.conn ≡ (x, c)
        → Grows b.conn.tables c.tables
        → IsSound G b
        → IsSound G (hydrate r user b (x, c))
    unfolding hydrate
    hydrate-IsSound b id (err e) c own k g h = Sound-conn b c g h
    hydrate-IsSound b id (ok subs) c own k g h =
        hydrate_blocks-Sound r up user subs b.store
          (load_user_blocks-BlockedIn env user id b.conn c h.valid own k)
          (load_user_blocks_complete env user id b.conn c h.valid own k) (Sound-Grows g h)

    admit_unbanned-IsSound :
        (id : ℕ) (b : Backend r) (x : Result Bool) (c : Conn)
        → id_of (row_of user c.tables) ≡ some id
        → Grows b.conn.tables c.tables
        → IsSound G b
        → IsSound G (admit_unbanned r env at user id b (x, c)).1
    unfolding admit_unbanned
    admit_unbanned-IsSound id b (err e) c own g h = Sound-conn b c g h
    admit_unbanned-IsSound id b (ok true) c own g h = Sound-conn b c g h
    admit_unbanned-IsSound id b (ok false) c own g h =
        let (x, c2) = load_user_blocks env id c in
        start-IsSound at user (hydrate r user b (x, c2)) ne quiet (
          hydrate-IsSound (record b { conn = c }) id x c2 own refl (load_user_blocks-Grows env id c)
            (Sound-conn b c g h))

    admit_known-IsSound :
        (b : Backend r) (x : Result (ℕ × Bool)) (c : Conn)
        → upsert_user env user b.conn ≡ (x, c)
        → Grows b.conn.tables c.tables
        → IsSound G b
        → IsSound G (admit_known r env at user b (x, c)).1
    unfolding admit_known
    admit_known-IsSound b (err e) c k g h = Sound-conn b c g h
    admit_known-IsSound b (ok row) c k g h =
        let f = upsert_user-Found env user b.conn c k in
        let (x, c2) = is_user_banned env user c in
        let g2 = is_user_banned-Grows env user c in
        admit_unbanned-IsSound row.0 b x c2
          (g2.extends.ids user row.0 (ap id_of f.row ∙ ap some f.same_id)) (Grows-trans g g2) h

  module _ (env : Environment) (at : Moment) where
    admit-IsSound :
        (user code : String) (b : Backend r)
        → (code ≡ "" → user ≢ "")
        → (at.greets ≡ false → (v : String) → G user v → ⊥)
        → IsSound G b
        → IsSound G (admit r env at (user, code) b).1
    unfolding admit
    admit-IsSound user code b ne quiet h = elim (Bool-cases (code == "")) [
      | inr failed ↦ rw failed h
      | inl fine ↦
          let (x, c) = upsert_user env user b.conn in
          rw fine (
            admit_known-IsSound env at user (ne ((eq_iff code "").0 fine)) quiet b x c refl
              (upsert_user-Grows env user b.conn) h)
    ]

    module _ {interval burst : ℕ} (l : Limits interval burst) (trust_xff : Bool)
        (validate : String → Option Payload) (draining : Bool) where
      unlimited-IsSound :
          (req : Request) (x : Bool) (m : Limiters l) (b : Backend r)
          → Quiet G at validate req
          → IsSound G b
          → IsSound G (unlimited r env at l trust_xff validate draining req (x, m) b).1
      unfolding unlimited
      unlimited-IsSound req false m b quiet h = h
      unlimited-IsSound req true m b quiet h =
          let token = bearer_token req in
          let (user, code) = verify_token validate at.seconds token in
          admit-IsSound user code b
            (λ e. verify_token-ne validate at.seconds token (ap (λ w. (user, w)) e)) quiet h

      pub handle_connections-IsSound :
          (req : Request) (from : Origin) (b : Backend r) (m : Limiters l)
          → Quiet G at validate req
          → IsSound G b
          → IsSound G (handle_connections r env at l trust_xff validate draining req from b m).1
      unfolding handle_connections
      handle_connections-IsSound req from b m quiet h = elim (Bool-cases draining) [
        | inl ends ↦ rw ends h
        | inr serves ↦
            let (x, m2) = allow l from trust_xff at.nanoseconds m in
            rw serves (unlimited-IsSound req x m2 b quiet h)
      ]
