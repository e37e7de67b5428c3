-- ===== src/Admin.antt =====
-- backend/admin.go: the login, the pages of reports, one report, and the bans of users. Go's server
-- has parsed a request; `sign` stands for the object storage. The static page is left out.
pub mod Bounds
pub mod Pages
pub mod Bans
pub mod Login
pub mod Kept
pub mod Fetched
mod Tests
use banana_talk.Prelude.{
  ℕ, ◌+◌, ◌-◌, ◌*◌, ◌/◌, ◌%◌, ℤ, pos, negsuc, String, Bool, true, false, not, ◌&&◌, ◌||◌, Option,
  none, some, List, [], ◌∷◌, map, ◌==◌, ltb, if◌then◌else◌, has,
}
use text.Mathlib.Text.{starts_with}
use banana_talk.Redis.{Redis}
use banana_talk.Sql.{
  Environment, Conn, Query, Result, ok, err, no_rows, failed, ◌>>=◌, pure, raise, attempt,
  statement,
}
use banana_talk.Db.{ban_user, unban_user}
use banana_talk.Db.ReportRows.{ReportRow, Postgres, list_reports, get_report}
use banana_talk.Strings.{trim_space, trim_prefix, split_slash, has_slash}
use banana_talk.Strconv.{
  Parsed, parsed, bad_syntax, out_of_range, parse_int, number, max_int64, max_uint64,
}
use banana_talk.Backend.{Backend}

-- 15 minutes
abbrev pub admin_signed_url_ttl : ℕ
admin_signed_url_ttl = 900000000000

abbrev pub admin_default_limit : ℕ
admin_default_limit = 20

abbrev pub admin_max_limit : ℕ
admin_max_limit = 100

-- `reason`, `page` and `limit` are query parameters; `login` is that of HTTP Basic Auth.
pub record AdminRequest : Type 0 where
  pub method : String
  pub path : String
  pub reason : String
  pub page : String
  pub limit : String
  pub login : Option (String × String)

pub record Item : Type 0 where
  pub row : ReportRow
  pub thumbnail_url : String

-- A plain text with its status; the answer of `http.NotFound`; JSON.
pub data Answer : Type 0 where
  plain_text : ℕ → String → Answer
  not_found : Answer
  reports_page : (items : List Item) (total page limit total_pages : ℕ) → Answer
  report_shown : ReportRow → String → Answer
  ban_state : ℤ → (banned changed : Bool) → Answer
  static_page : Answer

abbrev internal_error : Answer
internal_error = plain_text 500 "internal error"

-- Whether `initAdmin` registers the handlers.
abbrev pub init_admin : String → String → Bool
init_admin user pass = not (user == "" || pass == "")

-- `x < 1` is replaced.
abbrev pub at_least_one : ℕ → ℤ → ℕ
at_least_one d (negsuc n) = d
at_least_one d (pos n) = if ltb n 1 then d else n

pub page_number : String → ℕ
page_number s = at_least_one 1 (number (parse_int s))

pub page_limit : String → ℕ
page_limit s =
    let limit = at_least_one admin_default_limit (number (parse_int s)) in
    if ltb admin_max_limit limit then admin_max_limit else limit

-- The int64 with the same remainder by 2^64.
abbrev pub int64 : ℕ → ℤ
int64 n = let m = n % (max_uint64 + 1) in if ltb max_int64 m then negsuc (max_uint64 - m) else pos m

pub page_offset : ℕ → ℕ → ℤ
page_offset page limit = int64 ((page - 1) * limit)

-- `disconnectClient`
pub disconnect_client : {r : Redis} → String → Backend r → Backend r
disconnect_client sub b = if has b.clients sub then record b { closed = sub ∷ b.closed } else b

module _ (sign : String → ℕ → Option String) where
  signed_or : String → Option String → String
  signed_or url none = url
  signed_or url (some signed) = signed

  pub sign_screenshot : ReportRow → String
  unfolding signed_or
  sign_screenshot row =
      if row.screenshot_key == ""
      then row.screenshot_url
      else signed_or row.screenshot_url (sign row.screenshot_key admin_signed_url_ttl)

  pub item_of : ReportRow → Item
  unfolding sign_screenshot
  item_of row = record { row = row; thumbnail_url = sign_screenshot row }

module _ (env : Environment) where
  -- A statement that looks for a negative id, which no row has.
  no_user : Query String
  no_user = statement env (λ now t. (err no_rows, t))

  look_again : Result String → Query (String × Bool)
  unfolding no_user
  look_again (ok sub) = pure (sub, true)
  look_again (err no_rows) = do sub ← no_user; pure (sub, false)
  look_again (err failed) = raise failed

  -- Both statements of `banUser` or `unbanUser` for such an id.
  nobody : Query (String × Bool)
  unfolding look_again
  nobody = do changed ← attempt no_user; look_again changed

  pub ban_with : ℤ → Query (String × Bool)
  unfolding nobody
  ban_with (pos id) = ban_user env id
  ban_with (negsuc n) = nobody

  pub unban_with : ℤ → Query (String × Bool)
  unfolding nobody
  unban_with (pos id) = unban_user env id
  unban_with (negsuc n) = nobody

module _ (d : Postgres) (sign : String → ℕ → Option String) {r : Redis} (env : Environment) where
  listed : ℕ → ℕ → Backend r → Result (List ReportRow × ℕ) × Conn → Answer × Backend r
  unfolding item_of
  listed page limit b (err e, c) = (internal_error, record b { conn = c })
  listed page limit b (ok (rows, total), c) = (
    reports_page (map (item_of sign) rows) total page limit ((total + limit - 1) / limit),
    record b { conn = c },
  )

  pub admin_list_reports : AdminRequest → Backend r → Answer × Backend r
  unfolding listed page_number page_limit page_offset
  admin_list_reports req b =
      if req.method == "GET"
      then (let page = page_number req.page in
          let limit = page_limit req.limit in
          listed page limit b (
            list_reports d env (trim_space req.reason) (pos limit) (page_offset page limit) b.conn))
      else (plain_text 405 "method not allowed", b)

  got : Backend r → Result ReportRow × Conn → Answer × Backend r
  unfolding sign_screenshot
  got b (err no_rows, c) = (not_found, record b { conn = c })
  got b (err failed, c) = (internal_error, record b { conn = c })
  got b (ok row, c) = (report_shown row (sign_screenshot sign row), record b { conn = c })

  get_parsed : Backend r → Parsed → Answer × Backend r
  unfolding got
  get_parsed b (parsed id) = got b (get_report env id b.conn)
  get_parsed b bad_syntax = (plain_text 400 "invalid id", b)
  get_parsed b (out_of_range n) = (plain_text 400 "invalid id", b)

  pub admin_get_report : AdminRequest → Backend r → Answer × Backend r
  unfolding get_parsed
  admin_get_report req b =
      let id = trim_prefix req.path "/admin/api/reports/" in
      if req.method == "GET"
      then (if id == "" || has_slash id then (not_found, b) else get_parsed b (parse_int id))
      else (plain_text 405 "method not allowed", b)

  banned : ℤ → Backend r → Result (String × Bool) × Conn → Answer × Backend r
  unfolding disconnect_client
  banned id b (err no_rows, c) = (not_found, record b { conn = c })
  banned id b (err failed, c) = (internal_error, record b { conn = c })
  banned id b (ok (sub, changed), c) =
      let b' = record b { conn = c } in
      (ban_state id true changed, if changed then disconnect_client sub b' else b')

  unbanned : ℤ → Backend r → Result (String × Bool) × Conn → Answer × Backend r
  unbanned id b (err no_rows, c) = (not_found, record b { conn = c })
  unbanned id b (err failed, c) = (internal_error, record b { conn = c })
  unbanned id b (ok (sub, changed), c) = (ban_state id false changed, record b { conn = c })

  act : String → Backend r → Parsed → Answer × Backend r
  unfolding banned unbanned ban_with unban_with
  act action b bad_syntax = (plain_text 400 "invalid id", b)
  act action b (out_of_range n) = (plain_text 400 "invalid id", b)
  act action b (parsed id) =
      if action == "ban"
      then banned id b (ban_with env id b.conn)
      else (if action == "unban" then unbanned id b (unban_with env id b.conn) else (not_found, b))

  act_on : Backend r → List String → Answer × Backend r
  unfolding act
  act_on b (id ∷ action ∷ []) = act action b (parse_int id)
  act_on b _ = (not_found, b)

  pub admin_user_action : AdminRequest → Backend r → Answer × Backend r
  unfolding act_on
  admin_user_action req b =
      if req.method == "POST"
      then act_on b (split_slash (trim_prefix req.path "/admin/api/users/"))
      else (plain_text 405 "method not allowed", b)

  -- `adminAuth`, with the credentials of the environment.
  module _ (user pass : String) where
    admin_auth :
        (AdminRequest → Backend r → Answer × Backend r)
        → Option (String × String)
        → AdminRequest
        → Backend r
        → Answer × Backend r
    admin_auth next none req b = (plain_text 401 "unauthorized", b)
    admin_auth next (some (u, p)) req b =
        if not (u == user) || not (p == pass)
        then (plain_text 401 "unauthorized", b)
        else next req b

    -- The handlers that `initAdmin` registers, each under its path.
    route : AdminRequest → Backend r → Answer × Backend r
    unfolding admin_list_reports admin_get_report admin_user_action
    route req =
        if req.path == "/admin/api/reports"
        then admin_list_reports req
        else (if starts_with req.path "/admin/api/reports/"
            then admin_get_report req
            else (if starts_with req.path "/admin/api/users/"
                then admin_user_action req
                else (λ b. (static_page, b))))

    pub serve_admin : AdminRequest → Backend r → Answer × Backend r
    unfolding admin_auth route
    serve_admin req b = admin_auth route req.login req b
