-- ===== src/Routes/Kept.antt =====
-- Every request to the server of backend/main.go keeps the backend sound.
use banana_talk.Prelude.{◌≡◌, refl, ℕ, String, Bool, Option}
use banana_talk.Redis.{Redis, IsUp}
use banana_talk.Sql.{Environment}
use banana_talk.Db.ReportRows.{Postgres}
use banana_talk.Auth.{Payload}
use banana_talk.RateLimit.{Limits, Limiters}
use banana_talk.Backend.Sound.{IsSound}
use banana_talk.Backend.{Backend}
use banana_talk.Blocking.Kept.{block_handler-IsSound, blocks_handler-IsSound}
use banana_talk.Reporting.Kept.{report_handler-IsSound}
use banana_talk.Connection.Kept.{Quiet, handle_connections-IsSound}
use banana_talk.Connection.{Moment}
use banana_talk.Health.Kept.{readiness_handler-IsSound}
use banana_talk.Admin.Kept.{serve_admin-IsSound}
use banana_talk.Routes.{
  Route, ws, report, block, blocks, healthz, readyz, metrics, fallback, dashboard, slash, route_of,
  WebRequest, admin_request, handle, serve,
}

module _ {G : String → String → Type 0} (r : Redis) (up : IsUp r) {interval burst : ℕ}
    (l : Limits interval burst) (trust_xff : Bool) (validate : String → Option Payload)
    (d : Postgres) (sign : String → ℕ → Option String) (env : Environment) (at : Moment)
    (draining : Bool) (random_hex : Option String) (upload : String → Option String) where
  handle-IsSound :
      (route : Route) (req : WebRequest) (b : Backend r) (m : Limiters l)
      → (route ≡ ws → Quiet G at validate req.http)
      → IsSound G b
      → IsSound G
          (handle r l trust_xff validate d sign env at draining random_hex upload route req b m).1
  unfolding handle
  handle-IsSound ws req b m quiet h =
      handle_connections-IsSound r up env at l trust_xff validate draining req.http req.from b m
        (quiet refl) h
  handle-IsSound report req b m quiet h =
      report_handler-IsSound r up env validate at.seconds random_hex upload req.http req.form b h
  handle-IsSound block req b m quiet h =
      block_handler-IsSound r up env validate at.seconds req.http req.body b h
  handle-IsSound blocks req b m quiet h =
      blocks_handler-IsSound r up env validate at.seconds req.http b h
  handle-IsSound healthz req b m quiet h = h
  handle-IsSound readyz req b m quiet h = readiness_handler-IsSound r up env draining b h
  handle-IsSound metrics req b m quiet h = h
  handle-IsSound (dashboard user pass) req b m quiet h =
      serve_admin-IsSound d sign env user pass (admin_request req) b h
  handle-IsSound slash req b m quiet h = h
  handle-IsSound fallback req b m quiet h = h

  pub serve-IsSound :
      (login : Option (String × String)) (req : WebRequest) (b : Backend r) (m : Limiters l)
      → (route_of login req.path ≡ ws → Quiet G at validate req.http)
      → IsSound G b
      → IsSound G
          (serve r l trust_xff validate d sign env at draining random_hex upload login req b m).1
  unfolding serve
  serve-IsSound login req b m quiet h = handle-IsSound (route_of login req.path) req b m quiet h
