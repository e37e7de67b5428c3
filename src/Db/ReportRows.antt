-- ===== src/Db/ReportRows.antt =====
-- `ReportRow`, `listReports` and `getReport` of backend/db.go. What the documentation of PostgreSQL
-- says of ILIKE and ORDER BY is a parameter. Reasons and patterns are texts without a zero byte.
pub mod Pages
pub mod Sorted
pub mod Found
use Prim.Native.String.{◌++◌}
use banana_talk.Prelude.{
  ℕ, ◌+◌, ◌≤◌, ℤ, pos, negsuc, String, ◌≡◌, Bool, true, Option, none, some, List, [], ◌∷◌, ◌==◌,
  ◌==ℕ◌, ltb, if◌then◌else◌, length, keep_if, take, drop, All,
}
use banana_talk.Sql.{
  User, Report, Tables, Environment, Conn, Query, Result, ok, ◌>>=◌, pure, statement,
}
use banana_talk.Db.Statements.{first_where, has_id, one_row}

pub record ReportRow : Type 0 where
  pub id : ℕ
  pub reporter_id : ℕ
  pub reporter_sub : String
  pub reported_id : ℕ
  pub reported_sub : String
  pub reason : String
  pub screenshot_url : String
  pub screenshot_key : String
  pub created_at : ℕ
  pub reported_reports_count : ℕ
  pub reported_banned_at : Option ℕ

-- The columns of a report and of the two users.
abbrev pub report_row : Report → User → User → ReportRow
report_row r ru tu = record {
  id = r.id;
  reporter_id = r.reporter_id;
  reporter_sub = ru.google_sub;
  reported_id = r.reported_id;
  reported_sub = tu.google_sub;
  reason = r.reason;
  screenshot_url = r.screenshot_url;
  screenshot_key = r.screenshot_key;
  created_at = r.created_at;
  reported_reports_count = tu.reports_received_count;
  reported_banned_at = tu.banned_at;
}

-- JOIN users ru ON ru.id = r.reporter_id JOIN users tu ON tu.id = r.reported_id, for one report.
abbrev pub join_row : Report → Option User → Option User → Option ReportRow
join_row r none tu = none
join_row r (some ru) none = none
join_row r (some ru) (some tu) = some (report_row r ru tu)

abbrev pub put_row : Option ReportRow → List ReportRow → List ReportRow
put_row none rows = rows
put_row (some x) rows = x ∷ rows

abbrev pub joined : List User → List Report → List ReportRow
joined us [] = []
joined us (r ∷ rs) =
    put_row
      (join_row r (first_where (has_id r.reporter_id) us) (first_where (has_id r.reported_id) us))
      (joined us rs)

-- Newest first.
abbrev pub Newest : List ReportRow → Type 0
Newest [] = Unit
Newest (x ∷ xs) = All (λ y. y.created_at ≤ x.created_at) xs × Newest xs

-- The operator ILIKE, from a text and a pattern, and what ORDER BY created_at DESC makes of the rows
-- in the statement with a given number: the same rows, newest first, in any order at one time.
pub record Postgres : Type 0 where
  pub ilike : String → String → Bool
  pub order : ℕ → List ReportRow → List ReportRow
  pub order_same :
      (n : ℕ) (rows : List ReportRow) (p : ReportRow → Bool)
      → length (keep_if p (order n rows)) ≡ length (keep_if p rows)
  pub order_newest : (n : ℕ) (rows : List ReportRow) → Newest (order n rows)

abbrev pub clamp_limit : ℤ → ℕ
clamp_limit (negsuc n) = 20
clamp_limit (pos n) = if ltb n 1 then 20 else if ltb 100 n then 100 else n

abbrev pub clamp_offset : ℤ → ℕ
clamp_offset (negsuc n) = 0
clamp_offset (pos n) = n

module _ (d : Postgres) where
  -- WHERE r.reason ILIKE '%...%', or no condition.
  abbrev pub has_reason : String → Report → Bool
  has_reason filter r = if filter == "" then true else d.ilike r.reason ("%" ++ filter ++ "%")

  -- The rows of the query without LIMIT and OFFSET.
  abbrev pub all_rows : ℕ → String → Tables → List ReportRow
  all_rows n filter t = d.order n (joined t.users (keep_if (has_reason filter) t.reports))

  unfoldable pub select_reports_sql : ℕ → String → ℕ → ℕ → Tables → Result (List ReportRow) × Tables
  select_reports_sql n filter limit offset t =
      (ok (take limit (drop offset (all_rows n filter t))), t)

  unfoldable pub count_reports_sql : String → Tables → Result ℕ × Tables
  count_reports_sql filter t = (ok (length (keep_if (has_reason filter) t.reports)), t)

  module _ (env : Environment) where
    unfoldable pub select_reports : String → ℕ → ℕ → Query (List ReportRow)
    select_reports filter limit offset c =
        statement env (λ _. select_reports_sql c.step filter limit offset) c

    -- The rows of a page, and the number of reports.
    unfoldable pub list_reports : String → ℤ → ℤ → Query (List ReportRow × ℕ)
    list_reports filter limit offset = do
      rows ← select_reports filter (clamp_limit limit) (clamp_offset offset)
      total ← statement env (λ _. count_reports_sql filter)
      pure (rows, total)

abbrev pub first_report : ℕ → List Report → Option Report
first_report id [] = none
first_report id (r ∷ rs) = if r.id ==ℕ id then some r else first_report id rs

-- No report has a negative id.
abbrev pub report_with : ℤ → List Report → Option Report
report_with (pos id) rs = first_report id rs
report_with (negsuc n) rs = none

-- The row of one report.
abbrev pub row_of_report : List User → Option Report → Option ReportRow
row_of_report us none = none
row_of_report us (some r) =
    join_row r (first_where (has_id r.reporter_id) us) (first_where (has_id r.reported_id) us)

unfoldable pub get_report_sql : ℤ → Tables → Result ReportRow × Tables
get_report_sql id t = (one_row (row_of_report t.users (report_with id t.reports)), t)

unfoldable pub get_report : Environment → ℤ → Query ReportRow
get_report env id = statement env (λ _. get_report_sql id)
