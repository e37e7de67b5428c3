-- ===== src/Admin/Login.antt =====
-- What a request to the dashboard of backend/admin.go can change, and whose.
use text.Mathlib.Text.{starts_with}
use banana_talk.Prelude.{
  ℕ, ◌+◌, ℤ, pos, String, ◌≡◌, refl, ◌⊎◌, inl, inr, true, ◌||◌, Option, none, some, List, ◌==◌,
  eq_iff, Bool-cases,
}
use banana_talk.Redis.{Redis}
use banana_talk.Sql.{Environment, Conn, Result, ok, err, no_rows, failed}
use banana_talk.Db.ReportRows.{
  ReportRow, Postgres, select_reports_sql, count_reports_sql, select_reports, list_reports,
  get_report_sql, get_report,
}
use banana_talk.Strings.{trim_space, trim_prefix, has_slash}
use banana_talk.Strconv.{Parsed, parsed, bad_syntax, out_of_range, parse_int}
use banana_talk.Backend.{Backend}
use banana_talk.Admin.{
  AdminRequest, plain_text, page_number, page_limit, page_offset, listed, admin_list_reports, got,
  get_parsed, admin_get_report, admin_user_action, admin_auth, route, serve_admin,
}

-- The rows, Redis, the collectors, the clients and their connections are as before.
pub record Untouched {r : Redis} (b b' : Backend r) : Type 0 where
  pub tables : b'.conn.tables ≡ b.conn.tables
  pub store : b'.store ≡ b.store
  pub metrics : b'.metrics ≡ b.metrics
  pub clients : b'.clients ≡ b.clients
  pub closed : b'.closed ≡ b.closed

module _ {r : Redis} where
  Untouched-same : (b : Backend r) → Untouched b b
  Untouched-same b = record {
    tables = refl;
    store = refl;
    metrics = refl;
    clients = refl;
    closed = refl;
  }

  Untouched-conn :
      (b : Backend r) (c : Conn) → c.tables ≡ b.conn.tables → Untouched b (record b { conn = c })
  Untouched-conn b c h = record {
    tables = h;
    store = refl;
    metrics = refl;
    clients = refl;
    closed = refl;
  }

-- A request that the credentials in the environment let through and that bans or unbans.
abbrev pub Acts : String → String → AdminRequest → Type 0
Acts user pass req =
    (req.login ≡ some (user, pass))
    × (req.method ≡ "POST")
    × (starts_with req.path "/admin/api/users/" ≡ true)

module _ (d : Postgres) (env : Environment) where
  list_reports-tables :
      (filter : String) (limit offset : ℤ) (c : Conn)
      → (list_reports d env filter limit offset c).1.tables ≡ c.tables
  unfolding list_reports select_reports select_reports_sql count_reports_sql
  list_reports-tables filter limit offset c = elim (Bool-cases (env.fails c.step)) [
    | inl down ↦ rw down refl
    | inr up ↦ rw up (elim (Bool-cases (env.fails (c.step + 1))) [
      | inl down ↦ rw down refl
      | inr fine ↦ rw fine refl
    ])
  ]

  get_report-tables : (id : ℤ) (c : Conn) → (get_report env id c).1.tables ≡ c.tables
  unfolding get_report get_report_sql
  get_report-tables id c = elim (Bool-cases (env.fails c.step)) [
    | inl down ↦ rw down refl
    | inr up ↦ rw up refl
  ]

module _ (d : Postgres) (sign : String → ℕ → Option String) {r : Redis} (env : Environment) where
  listed-Untouched :
      (page limit : ℕ) (b : Backend r) (x : Result (List ReportRow × ℕ)) (c : Conn)
      → c.tables ≡ b.conn.tables
      → Untouched b (listed d sign env page limit b (x, c)).1
  unfolding listed
  listed-Untouched page limit b (err e) c h = Untouched-conn b c h
  listed-Untouched page limit b (ok (rows, total)) c h = Untouched-conn b c h

  pub admin_list_reports-Untouched :
      (req : AdminRequest) (b : Backend r) → Untouched b (admin_list_reports d sign env req b).1
  unfolding admin_list_reports
  admin_list_reports-Untouched req b = elim (Bool-cases (req.method == "GET")) [
    | inl get ↦
        let page = page_number req.page in
        let limit = page_limit req.limit in
        rw get (
          listed-Untouched page limit b _ _ (
            list_reports-tables d env (trim_space req.reason) (pos limit) (page_offset page limit)
              b.conn))
    | inr other ↦ rw other (Untouched-same b)
  ]

  got-Untouched :
      (b : Backend r) (x : Result ReportRow) (c : Conn)
      → c.tables ≡ b.conn.tables
      → Untouched b (got d sign env b (x, c)).1
  unfolding got
  got-Untouched b (err no_rows) c h = Untouched-conn b c h
  got-Untouched b (err failed) c h = Untouched-conn b c h
  got-Untouched b (ok row) c h = Untouched-conn b c h

  get_parsed-Untouched : (b : Backend r) (x : Parsed) → Untouched b (get_parsed d sign env b x).1
  unfolding get_parsed
  get_parsed-Untouched b bad_syntax = Untouched-same b
  get_parsed-Untouched b (out_of_range n) = Untouched-same b
  get_parsed-Untouched b (parsed id) = got-Untouched b _ _ (get_report-tables d env id b.conn)

  pub admin_get_report-Untouched :
      (req : AdminRequest) (b : Backend r) → Untouched b (admin_get_report d sign env req b).1
  unfolding admin_get_report
  admin_get_report-Untouched req b = elim (Bool-cases (req.method == "GET")) [
    | inr other ↦ rw other (Untouched-same b)
    | inl get ↦
        let id = trim_prefix req.path "/admin/api/reports/" in
        rw get (elim (Bool-cases (id == "" || has_slash id)) [
          | inl none_named ↦ rw none_named (Untouched-same b)
          | inr named ↦ rw named (get_parsed-Untouched b (parse_int id))
        ])
  ]

  module _ (user pass : String) where
    route-Untouched :
        (req : AdminRequest) (b : Backend r)
        → Untouched b (route d sign env user pass req b).1
          ⊎ ((req.method ≡ "POST") × (starts_with req.path "/admin/api/users/" ≡ true))
    unfolding route admin_user_action
    route-Untouched req b = elim (Bool-cases (req.path == "/admin/api/reports")) [
      | inl list ↦ inl (rw list (admin_list_reports-Untouched req b))
      | inr other ↦ elim (Bool-cases (starts_with req.path "/admin/api/reports/")) [
        | inl one ↦ inl (rw other (rw one (admin_get_report-Untouched req b)))
        | inr second ↦ elim (Bool-cases (starts_with req.path "/admin/api/users/")) [
          | inr static ↦ inl (rw other (rw second (rw static (Untouched-same b))))
          | inl users ↦ elim (Bool-cases (req.method == "POST")) [
            | inl post ↦ inr ((eq_iff req.method "POST").0 post, users)
            | inr get ↦ inl (rw other (rw second (rw users (rw get (Untouched-same b)))))
          ]
        ]
      ]
    ]

    -- A request under /admin/ leaves the rows, Redis, the collectors, the clients and their
    -- connections as they are, unless it is a POST to the users with the user name and the password
    -- of the environment; and without these it is answered with status 401.
    pub serve_admin-Untouched :
        (req : AdminRequest) (b : Backend r)
        → (Untouched b (serve_admin d sign env user pass req b).1 ⊎ Acts user pass req)
          × (((serve_admin d sign env user pass req b).0 ≡ plain_text 401 "unauthorized")
              ⊎ (req.login ≡ some (user, pass)))
    unfolding serve_admin admin_auth
    serve_admin-Untouched req b = go req.login refl
      where
        go :
            (login : Option (String × String))
            → req.login ≡ login
            → (Untouched b
                  (admin_auth d sign env user pass (route d sign env user pass) login req b).1
                ⊎ Acts user pass req)
              × (((admin_auth d sign env user pass (route d sign env user pass) login req b).0
                    ≡ plain_text 401 "unauthorized")
                  ⊎ (req.login ≡ some (user, pass)))
        go none e = (inl (Untouched-same b), inl refl)
        go (some (u, p)) e = elim (Bool-cases (u == user)) [
          | inr stranger ↦ rw stranger (inl (Untouched-same b), inl refl)
          | inl known ↦ elim (Bool-cases (p == pass)) [
            | inr wrong ↦ rw known (rw wrong (inl (Untouched-same b), inl refl))
            | inl right ↦
                let same : req.login ≡ some (user, pass) =
                  rw (← (eq_iff u user).0 known, ← (eq_iff p pass).0 right) e in
                (
                  rw (known, right)
                      (elim (route-Untouched req b) [
                        | inl kept ↦ inl kept
                        | inr (post, users) ↦ inr (same, post, users)
                      ]),
                  inr same,
                )
          ]
        ]
