-- ===== src/Connection/Admitted.antt =====
-- Whom `handleConnections` of backend/main.go admits.
use banana_talk.Prelude.{
  ℕ, ◌+◌, String, ◌≡◌, refl, sym, ap, subst, ◌∙◌, inl, inr, Bool, true, false, Option, ◌==◌,
  eq_refl, eq_iff, has, Bool-cases, arith,
}
use banana_talk.Redis.{Redis}
use banana_talk.Matchmaker.{add}
use banana_talk.Sql.{Environment, Conn, Result, ok, err}
use banana_talk.Db.{upsert_user, is_user_banned, load_user_blocks}
use banana_talk.Http.{Request, Response}
use banana_talk.Auth.{Payload, bearer_token, verify_token}
use banana_talk.RateLimit.{Limits, Limiters, Origin, allow}
use banana_talk.Backend.{Backend}
use banana_talk.Connection.{
  Outcome, refused, not_upgraded, not_greeted, opened, Moment, register, start, hydrate,
  admit_unbanned, admit_known, admit, unlimited, handle_connections,
}

-- The user of a connection that is open.
abbrev user_of : String → Outcome → String
user_of d (opened u) = u
user_of d _ = d

opened_inj : {u v : String} → opened u ≡ opened v → u ≡ v
opened_inj {u} e = ap (user_of u) e

refused_ne : {x : Response} {u : String} → refused x ≡ opened u → ⊥
refused_ne e = cc

not_greeted_ne : {v u : String} → not_greeted v ≡ opened u → ⊥
not_greeted_ne e = cc

not_upgraded_ne : {u : String} → not_upgraded ≡ opened u → ⊥
not_upgraded_ne e = cc

module _ (r : Redis) where
  -- The user has an entry and is counted, and waits since the connection.
  pub record Started (at : Moment) (user : String) (b b' : Backend r) : Type 0 where
    pub has_entry : has b'.clients user ≡ true
    pub counted : b'.metrics.active_connections ≡ b.metrics.active_connections + 1
    pub waits : b'.store ≡ add r at.nanoseconds user b.store
    pub same_conn : b'.conn ≡ b.conn

  register-has : (user : String) (b : Backend r) → has (register r user b).clients user ≡ true
  unfolding register
  register-has user b = elim (Bool-cases (has b.clients user)) [
    | inl old ↦ rw old old
    | inr new ↦ rw new (rw (eq_refl user) refl)
  ]

  start-Started :
      (at : Moment) (user : String) (b : Backend r) {v : String} {b' : Backend r}
      → start r at user b ≡ (opened v, b')
      → (v ≡ user) × Started at user b b'
  unfolding start register
  start-Started at user b {v} {b'} h = elim (Bool-cases at.upgrades) [
    | inr kept_http ↦ absurd (not_upgraded_ne (ap (λ p. p.0) (rw kept_http at h)))
    | inl upgraded ↦ elim (Bool-cases at.greets) [
      | inr unsent ↦ absurd (not_greeted_ne (ap (λ p. p.0) (rw (upgraded, unsent) at h)))
      | inl greeted ↦
          let k = rw (upgraded, greeted) at h in
          let e = ap (λ p. p.1) (sym k) in
          (
            sym (opened_inj (ap (λ p. p.0) k)),
            record {
              has_entry = ap (λ d. has d.clients user) e ∙ register-has user b;
              counted = ap (λ d. d.metrics.active_connections) e;
              waits = ap (λ d. d.store) e;
              same_conn = ap (λ d. d.conn) e;
            },
          )
    ]
  ]

  module _ (env : Environment) (at : Moment) where
    -- What an admitted user has gone through in the database.
    pub record Cleared (user : String) (b b' : Backend r) : Type 0 where
      pub id : ℕ
      pub fresh : Bool
      pub known : Conn
      pub checked : Conn
      pub upserted : upsert_user env user b.conn ≡ (ok (id, fresh), known)
      pub unbanned : is_user_banned env user known ≡ (ok false, checked)
      pub started : Started at user (hydrate r user b (load_user_blocks env id checked)) b'

    admit_unbanned-Started :
        (user : String) (id : ℕ) (b : Backend r) (x : Result Bool) (c : Conn) {v : String}
        {b' : Backend r}
        → admit_unbanned r env at user id b (x, c) ≡ (opened v, b')
        → (v ≡ user)
          × (x ≡ ok false)
          × Started at user (hydrate r user b (load_user_blocks env id c)) b'
    unfolding admit_unbanned
    admit_unbanned-Started user id b (err e) c h = absurd (refused_ne (ap (λ p. p.0) h))
    admit_unbanned-Started user id b (ok true) c h = absurd (refused_ne (ap (λ p. p.0) h))
    admit_unbanned-Started user id b (ok false) c h =
        let (same, p) = start-Started at user (hydrate r user b (load_user_blocks env id c)) h in
        (same, refl, p)

    admit_known-Cleared :
        (user : String) (b : Backend r) (x : Result (ℕ × Bool)) (c : Conn) {v : String}
        {b' : Backend r}
        → upsert_user env user b.conn ≡ (x, c)
        → admit_known r env at user b (x, c) ≡ (opened v, b')
        → (v ≡ user) × Cleared user b b'
    unfolding admit_known
    admit_known-Cleared user b (err e) c k h = absurd (refused_ne (ap (λ p. p.0) h))
    admit_known-Cleared user b (ok (id, fresh)) c k h =
        let (x, c2) = is_user_banned env user c in
        let (same, free, p) = admit_unbanned-Started user id b x c2 h in
        (
          same,
          record {
            id = id;
            fresh = fresh;
            known = c;
            checked = c2;
            upserted = k;
            unbanned = ap (λ y. (y, c2)) free;
            started = p;
          },
        )

    admit-Cleared :
        (who : String × String) (b : Backend r) {v : String} {b' : Backend r}
        → admit r env at who b ≡ (opened v, b')
        → (who ≡ (v, "")) × Cleared v b b'
    unfolding admit
    admit-Cleared (user, code) b {v} {b'} h = elim (Bool-cases (code == "")) [
      | inr failed ↦ absurd (refused_ne (ap (λ p. p.0) (rw failed at h)))
      | inl fine ↦
          let (x, c) = upsert_user env user b.conn in
          let (same, p) = admit_known-Cleared user b x c refl (rw fine at h) in
          (ground (arith, same, (eq_iff code "").0 fine), subst (λ w. Cleared w b b') (sym same) p)
    ]

    module _ {interval burst : ℕ} (l : Limits interval burst) (trust_xff : Bool)
        (validate : String → Option Payload) (draining : Bool) where
      -- A connection is opened only while the server does not shut down, if the limiter of the IP
      -- allows it, for the user of a verified token who, with a row in the database, is not banned.
      -- Then the user has an entry in the table of clients, is counted and is put in the queue, after
      -- the blocks that the database returned have been copied to Redis.
      pub handle_connections-Cleared :
          (req : Request) (from : Origin) (b : Backend r) (m : Limiters l) {user : String}
          {b' : Backend r} {m' : Limiters l}
          → handle_connections r env at l trust_xff validate draining req from b m
            ≡ (opened user, b', m')
          → (draining ≡ false)
            × (allow l from trust_xff at.nanoseconds m ≡ (true, m'))
            × (verify_token validate at.seconds (bearer_token req) ≡ (user, ""))
            × Cleared user b b'
      unfolding handle_connections unlimited
      handle_connections-Cleared req from b m {user} {b'} {m'} h = elim (Bool-cases draining) [
        | inl ends ↦ absurd (refused_ne (ap (λ p. p.0) (rw ends at h)))
        | inr serves ↦
            let (x, m2) = allow l from trust_xff at.nanoseconds m in
            let (allowed, who, p) = go x m2 (rw serves at h) in (serves, allowed, who, p)
      ]
        where
          go :
              (x : Bool) (m2 : Limiters l)
              → unlimited r env at l trust_xff validate draining req (x, m2) b
                ≡ (opened user, b', m')
              → ◌≡◌ {A = Bool × Limiters l} (x, m2) (true, m')
                × (verify_token validate at.seconds (bearer_token req) ≡ (user, ""))
                × Cleared user b b'
          go false m2 k = absurd (refused_ne (ap (λ p. p.0) k))
          go true m2 k =
              let (who, p) =
                admit-Cleared (verify_token validate at.seconds (bearer_token req)) b
                  (ap (λ q. (q.0, q.1)) k) in
              (ap (λ q. (true, q.2)) k, who, p)
