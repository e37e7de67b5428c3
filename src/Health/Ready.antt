-- ===== src/Health/Ready.antt =====
-- When the readiness probe of backend/health.go lets new traffic in.
use banana_talk.Prelude.{◌≡◌, ◌↔◌, refl, Bool, true, false, Bool-cases, inl, inr, arith}
use banana_talk.Redis.Commands.{ping}
use banana_talk.Redis.{Redis, Reply, ok, err}
use banana_talk.Sql.{Environment}
use banana_talk.Backend.{Backend}
use banana_talk.Health.{redis_pinged, database_pinged, readiness_handler}

abbrev pub answers : {S : Type 0} → Reply S (Unit {0}) → Bool
answers (ok _ s) = true
answers (err s) = false

module _ (r : Redis) (env : Environment) where
  redis_pinged-status :
      (b : Backend r) (x : Reply r.Store (Unit {0}))
      → ((redis_pinged r env b x).0.status ≡ 200)
        ↔ ((answers x ≡ true) × (env.fails b.conn.step ≡ false))
  unfolding redis_pinged database_pinged
  redis_pinged-status b (err s) = (λ e. absurd (omega (arith, e)), λ h. absurd (cc h.0))
  redis_pinged-status b (ok _ s) = elim (Bool-cases (env.fails b.conn.step)) [
    | inl down ↦ rw down (λ e. absurd (omega (arith, e)), λ h. absurd (cc h.1))
    | inr up ↦ rw up (λ e. (refl, refl), λ h. refl)
  ]

  redis_pinged-tables :
      (b : Backend r) (x : Reply r.Store (Unit {0}))
      → (redis_pinged r env b x).1.conn.tables ≡ b.conn.tables
  unfolding redis_pinged database_pinged
  redis_pinged-tables b (err s) = refl
  redis_pinged-tables b (ok _ s) = elim (Bool-cases (env.fails b.conn.step)) [
    | inl down ↦ rw down refl
    | inr up ↦ rw up refl
  ]

  -- The readiness probe answers with status 200 exactly if the server does not shut down, Redis
  -- answers its ping and that of the database does not fail; the tables stay as they are.
  pub readiness_handler-status :
      (shutting_down : Bool) (b : Backend r)
      → (((readiness_handler r env shutting_down b).0.status ≡ 200) ↔ (
          (shutting_down ≡ false)
          × (answers (r.run ping b.store) ≡ true)
          × (env.fails b.conn.step ≡ false)))
        × ((readiness_handler r env shutting_down b).1.conn.tables ≡ b.conn.tables)
  unfolding readiness_handler
  readiness_handler-status true b = ((λ e. absurd (omega (arith, e)), λ h. absurd (cc h.0)), refl)
  readiness_handler-status false b =
      let (f, g) = redis_pinged-status b (r.run ping b.store) in
      (
        (λ e. (refl, (f e).0, (f e).1), λ h. g (h.1, h.2)),
        redis_pinged-tables b (r.run ping b.store),
      )
