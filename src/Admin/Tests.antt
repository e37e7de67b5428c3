-- ===== src/Admin/Tests.antt =====
-- The dashboard of backend/admin.go on three users and three reports.
use banana_talk.Prelude.{
  ℕ, ◌-◌, ◌*◌, ◌≤◌, ◌<◌, pos, String, ◌≡◌, ◌≢◌, ◌⊎◌, refl, true, false, Option, none, some, [], ◌∷◌,
  map, All, ◌==◌, eq_iff, arith,
}
use banana_talk.Sql.{User, Report}
use banana_talk.Redis.Memory.{memory}
use banana_talk.Db.Statements.{ban_returning_sql, select_sub_sql}
use banana_talk.Db.{ban_user, settle, look_up_sub}
use banana_talk.Db.ReportRows.{joined, all_rows, clamp_offset}
use banana_talk.Db.ReportRows.Sorted.{sorted}
use banana_talk.Strings.{trim_space}
use banana_talk.Strconv.{max_int64, scan, parse_int}
use banana_talk.RateLimit.Bucket.{bucket}
use banana_talk.Backend.Samples.{calm, knows, post, new_backend}
use banana_talk.Backend.{Backend}
use banana_talk.Connection.{Moment, opened, handle_connections}
use banana_talk.RateLimit.{Origin, Limiters}
use banana_talk.Admin.Bounds.{page_offset-bounds}
use banana_talk.Admin.Pages.{page_request, answered_pages, fetch_pages, fetch_pages-all_rows}
use banana_talk.Admin.Bans.{Banned, admin_user_action-Banned}
use banana_talk.Admin.Login.{Untouched, Acts, serve_admin-Untouched}
use banana_talk.Admin.Fetched.{report_request, admin_get_report-joined}
use banana_talk.Admin.{
  AdminRequest, Answer, plain_text, ban_state, report_shown, admin_max_limit, page_number,
  page_limit, page_offset, sign_screenshot, item_of, admin_list_reports, admin_get_report, banned,
  act, act_on, ban_with, disconnect_client, admin_user_action, serve_admin,
}

abbrev user : ℕ → String → ℕ → User
user id sub reports = record {
  id = id;
  google_sub = sub;
  created_at = 1;
  banned_at = none;
  reports_received_count = reports;
}

abbrev report : ℕ → ℕ → ℕ → ℕ → Report
report id reporter reported at = record {
  id = id;
  reporter_id = reporter;
  reported_id = reported;
  reason = "spam";
  screenshot_url = "s3://shots/1";
  screenshot_key = "reports/1.png";
  created_at = at;
}

abbrev busy : Backend memory
busy = record new_backend {
  conn = record new_backend.conn {
    tables = record new_backend.conn.tables {
      users = user 3 "carol" 0 ∷ user 2 "bob" 2 ∷ user 1 "alice" 1 ∷ [];
      reports = report 3 3 2 30 ∷ report 2 2 1 20 ∷ report 1 1 2 10 ∷ [];
      next_user_id = 4;
      next_report_id = 4;
    };
  };
  clients = "alice" ∷ "bob" ∷ [];
}

-- The object storage cannot sign.
abbrev unsigned_url : String → ℕ → Option String
unsigned_url key ttl = none

numbers : Unit {0}
unfolding page_number page_limit page_offset parse_int scan
numbers = tt

-- The page 2^63 - 1 and larger ones have a negative offset, and show the first page.
far_page : clamp_offset (page_offset (page_number "99999999999999999999") 20) ≡ 0
unfolding numbers
far_page = refl

not_numbers :
    (page_number "-5" ≡ 1)
    × (page_number "+7" ≡ 7)
    × (page_limit "1000" ≡ 100)
    × (page_limit "x" ≡ 20)
unfolding numbers
not_numbers = (refl, refl, refl, refl)

page_offset-bounds_example :
    (1 ≤ page_number "99999999999999999999")
    × (page_number "99999999999999999999" ≤ max_int64)
    × (1 ≤ page_limit "-3")
    × (page_limit "-3" ≤ admin_max_limit)
    × ((92233720368547758 < page_number "99999999999999999999")
        ⊎ (page_offset (page_number "99999999999999999999") (page_limit "-3")
            ≡ pos ((page_number "99999999999999999999" - 1) * page_limit "-3")))
page_offset-bounds_example = page_offset-bounds "99999999999999999999" "-3"

-- Two pages of two and one rows.
fetch_pages-all_rows_example :
    fetch_pages sorted unsigned_url {r = memory} calm
      (λ n. refl)
      ""
      2
      (omega arith)
      (omega arith)
      (answered_pages
        (admin_list_reports sorted unsigned_url {r = memory} calm (page_request "" 2 1) busy).0)
      0
      busy
    ≡ map (item_of unsigned_url) (all_rows sorted 0 (trim_space "") busy.conn.tables)
fetch_pages-all_rows_example =
    fetch_pages-all_rows sorted unsigned_url calm (λ n. refl) "" 2 (omega arith) (omega arith) busy
      (all_rows sorted 0 (trim_space "") busy.conn.tables) (λ k. refl)
      ((refl, refl), ((refl, refl), ((refl, refl), tt))) (omega arith)

admin_get_report-joined_example :
    All
      (λ row.
        (admin_get_report sorted unsigned_url {r = memory} calm (report_request row.id) busy).0
        ≡ report_shown row (sign_screenshot unsigned_url row))
      (joined busy.conn.tables.users busy.conn.tables.reports)
admin_get_report-joined_example =
    admin_get_report-joined unsigned_url sorted calm busy refl
      ((omega arith, (omega arith, tt)), ((omega arith, tt), (tt, tt)))
      (omega arith, (omega arith, (omega arith, tt)))

abbrev ban_bob : AdminRequest
ban_bob = record {
  method = "POST";
  path = "/admin/api/users/2/ban";
  reason = "";
  page = "";
  limit = "";
  login = some ("root", "secret");
}

after_ban : Answer × Backend memory
after_ban = admin_user_action sorted unsigned_url calm ban_bob busy

bans_bob :
    admin_user_action sorted unsigned_url calm ban_bob busy
    ≡ (ban_state (pos 2) true true, after_ban.1)
unfolding after_ban admin_user_action act_on act banned disconnect_client ban_with ban_user settle
    look_up_sub ban_returning_sql select_sub_sql parse_int scan
bans_bob = refl

closes_bob : after_ban.1.closed ≡ "bob" ∷ []
unfolding bans_bob after_ban
closes_bob = refl

abbrev noon : Moment
noon = record { upgrades = true; greets = true; seconds = 99; nanoseconds = 99000000000 }

abbrev home : Origin
home = record { forwarded_for = ""; real_ip = ""; remote_addr = "10.0.0.1:5000" }

abbrev unseen : Limiters bucket
unseen ip = none

apart : (s t : String) → (s == t) ≡ false → s ≢ t
apart s t h e = absurd (cc (h, (eq_iff s t).1 e))

admin_user_action-Banned_example :
    (sub : String) × Banned sorted unsigned_url {r = memory} calm 2 true sub busy after_ban.1
    × ((handle_connections memory calm noon bucket false knows false post home after_ban.1 unseen).0
        ≢ opened sub)
admin_user_action-Banned_example =
    admin_user_action-Banned sorted unsigned_url calm ban_bob busy noon bucket false knows false
      post home unseen
      (
        ((omega arith, apart "bob" "carol" refl), ((omega arith, apart "alice" "carol" refl), tt)),
        (((omega arith, apart "alice" "bob" refl), tt), (tt, tt)),
      )
      bans_bob

serve_admin-Untouched_example :
    (Untouched busy (serve_admin sorted unsigned_url calm "root" "other" ban_bob busy).1
      ⊎ Acts "root" "other" ban_bob)
    × (((serve_admin sorted unsigned_url {r = memory} calm "root" "other" ban_bob busy).0
          ≡ plain_text 401 "unauthorized")
        ⊎ (ban_bob.login ≡ some ("root", "other")))
serve_admin-Untouched_example =
    serve_admin-Untouched sorted unsigned_url calm "root" "other" ban_bob busy
