-- ===== src/Routes.antt =====
-- The handlers that `main` of backend/main.go and `initAdmin` of backend/admin.go register, and the
-- choice between them by Go's ServeMux: the pattern that is the path, or else the longest that ends
-- with a slash and starts the path; a path that lacks only the slash of a pattern is redirected
-- to it. Paths are clean, as the ServeMux makes them.
pub mod Kept
use text.Mathlib.Text.{starts_with}
use banana_talk.Prelude.{ℕ, String, Bool, ◌||◌, Option, none, some, ◌==◌, if◌then◌else◌}
use banana_talk.Metrics.{Metrics}
use banana_talk.Redis.{Redis}
use banana_talk.Sql.{Environment}
use banana_talk.Db.ReportRows.{Postgres}
use banana_talk.Http.{Request, Response, Plain}
use banana_talk.Auth.{Payload}
use banana_talk.RateLimit.{Limits, Limiters, Origin}
use banana_talk.Backend.{Backend}
use banana_talk.Blocking.{block_handler, blocks_handler}
use banana_talk.Reporting.{Form, report_handler}
use banana_talk.Connection.{Outcome, Moment, handle_connections}
use banana_talk.Health.{readiness_handler, liveness_handler}
use banana_talk.Admin.{AdminRequest, Answer, serve_admin}

pub data Route : Type 0 where
  ws report block blocks healthz readyz metrics fallback : Route
  -- With the credentials of the dashboard.
  dashboard : (user pass : String) → Route
  -- To the path with a slash.
  slash : Route

-- The patterns without the dashboard.
abbrev pub base_route : String → Route
base_route path =
    if path == "/ws"
    then ws
    else if path == "/report"
    then report
    else if path == "/block"
    then block
    else if path == "/blocks"
    then blocks
    else if path == "/healthz"
    then healthz
    else if path == "/readyz"
    then readyz
    else if path == "/metrics"
    then metrics
    else fallback

-- The credentials are there if `initAdmin` registers the dashboard.
unfoldable pub route_of : Option (String × String) → String → Route
route_of none path = base_route path
route_of (some (user, pass)) path =
    if path == "/admin" || path == "/admin/api/users"
    then slash
    else if starts_with path "/admin/"
    then dashboard user pass
    else base_route path

-- A request as Go's server has parsed it, for all handlers; "" is a missing parameter or header.
pub record WebRequest : Type 0 where
  pub path : String
  pub http : Request
  pub from : Origin
  pub body : Option String
  pub form : Form
  pub reason : String
  pub page : String
  pub limit : String
  pub login : Option (String × String)

unfoldable pub admin_request : WebRequest → AdminRequest
admin_request req = record {
  method = req.http.method;
  path = req.path;
  reason = req.reason;
  page = req.page;
  limit = req.limit;
  login = req.login;
}

-- What is written: the outcome of an upgrade, the answer of one of the other handlers, the collectors,
-- or a redirect.
pub data Served : Type 0 where
  upgrade : Outcome → Served
  api : Response → Served
  admin : Answer → Served
  probe : Plain → Served
  collectors : Metrics → Served
  found : String → Served
  with_slash : Served

-- `handleNotFound`
abbrev pub handle_not_found : Served
handle_not_found = found "https://lystic.dev"

module _ (r : Redis) {interval burst : ℕ} (l : Limits interval burst) (trust_xff : Bool)
    (validate : String → Option Payload) (d : Postgres) (sign : String → ℕ → Option String)
    (env : Environment) (at : Moment) (draining : Bool) (random_hex : Option String)
    (upload : String → Option String) where
  -- The handler of a route; `draining` is `shuttingDown`.
  unfoldable pub handle :
      Route → WebRequest → Backend r → Limiters l → Served × Backend r × Limiters l
  unfolding admin_request
  handle ws req b m =
      let (outcome, b', m') =
        handle_connections r env at l trust_xff validate draining req.http req.from b m in
      (upgrade outcome, b', m')
  handle report req b m =
      let (res, b') =
        report_handler r env validate at.seconds random_hex upload req.http req.form b in
      (api res, b', m)
  handle block req b m =
      let (res, b') = block_handler r env validate at.seconds req.http req.body b in
      (api res, b', m)
  handle blocks req b m =
      let (res, b') = blocks_handler r env validate at.seconds req.http b in (api res, b', m)
  handle healthz req b m = (probe liveness_handler, b, m)
  handle readyz req b m = let (res, b') = readiness_handler r env draining b in (probe res, b', m)
  handle metrics req b m = (collectors b.metrics, b, m)
  handle (dashboard user pass) req b m =
      let (res, b') = serve_admin d sign env user pass (admin_request req) b in (admin res, b', m)
  handle slash req b m = (with_slash, b, m)
  handle fallback req b m = (handle_not_found, b, m)

  unfoldable pub serve :
      Option (String × String)
      → WebRequest
      → Backend r
      → Limiters l
      → Served × Backend r × Limiters l
  unfolding handle route_of
  serve login req = handle (route_of login req.path) req
