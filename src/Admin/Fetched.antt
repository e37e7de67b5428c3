-- ===== src/Admin/Fetched.antt =====
-- The reports that the dashboard of backend/admin.go lists, asked for one by one by their printed
-- ids.
use Prim.Native.String.{String, [], ◌∷◌, ◌++◌}
use banana_talk.Prelude.{
  ℕ, zero, suc, ◌+◌, ◌/◌, ◌%◌, ◌≤◌, ◌≡◌, refl, inl, inr, false, Option, none, some, ◌==ℕ◌,
  eq_false_of_ne, ltb, All, Bool-cases, arith,
}
use banana_talk.Redis.{Redis}
use banana_talk.Sql.{Environment}
use banana_talk.Db.ReportRows.{
  ReportRow, Postgres, joined, first_report, row_of_report, get_report_sql, get_report,
}
use banana_talk.Db.ReportRows.Found.{Distinct, All-both, joined-ids, joined-found}
use banana_talk.Strings.Trim.{trim_prefix-append}
use banana_talk.Strings.{has_slash}
use banana_talk.Strconv.{max_int64, decimal, decimal_onto, digit}
use banana_talk.Strconv.RoundTrip.{code-digit, decimal-ne-nil, parse_int-decimal}
use banana_talk.Backend.{Backend}
use banana_talk.Admin.{
  AdminRequest, report_shown, sign_screenshot, got, get_parsed, admin_get_report,
}

-- GET /admin/api/reports/{id}
abbrev pub report_request : ℕ → AdminRequest
report_request id = record {
  method = "GET";
  path = "/admin/api/reports/" ++ decimal id;
  reason = "";
  page = "";
  limit = "";
  login = none;
}

has_slash-digit :
    (n : ℕ) (rest : String) → has_slash rest ≡ false → has_slash (digit n ∷ rest) ≡ false
has_slash-digit n rest h =
    let other : (48 + n % 10 ==ℕ 47) ≡ false = ground arith in
    rw (code-digit n) (rw (other, h) refl)

has_slash-decimal_onto :
    (k n : ℕ) (rest : String) → has_slash rest ≡ false → has_slash (decimal_onto k n rest) ≡ false
unfolding decimal_onto
has_slash-decimal_onto zero n rest h = has_slash-digit n rest h
has_slash-decimal_onto (suc k) n rest h = elim (Bool-cases (ltb n 10)) [
  | inl small ↦ rw small (has_slash-digit n rest h)
  | inr large ↦
      rw large (has_slash-decimal_onto k (n / 10) (digit n ∷ rest) (has_slash-digit n rest h))
]

has_slash-decimal : (n : ℕ) → has_slash (decimal n) ≡ false
unfolding decimal
has_slash-decimal n = has_slash-decimal_onto 19 n [] refl

module _ (sign : String → ℕ → Option String) (d : Postgres) {r : Redis} (env : Environment) where
  admin_get_report-found :
      (b : Backend r) (row : ReportRow)
      → env.fails b.conn.step ≡ false
      → row.id ≤ max_int64
      → row_of_report b.conn.tables.users (first_report row.id b.conn.tables.reports) ≡ some row
      → (admin_get_report d sign env (report_request row.id) b).0
        ≡ report_shown row (sign_screenshot sign row)
  unfolding admin_get_report get_parsed got get_report get_report_sql
  admin_get_report-found b row up small found =
      rw (trim_prefix-append "/admin/api/reports/" (decimal row.id)) (
        rw (eq_false_of_ne (decimal row.id) "" (decimal-ne-nil row.id), has_slash-decimal row.id)
          (rw (parse_int-decimal row.id small) (rw up (rw found refl))))

  -- While the statement does not fail and the ids of the reports are distinct and below 2^63: each
  -- report that has a row in the list of the dashboard, which has those of both users, is shown with
  -- that same row at /admin/api/reports/{id}, for its id in decimal digits.
  pub admin_get_report-joined :
      (b : Backend r)
      → env.fails b.conn.step ≡ false
      → Distinct b.conn.tables.reports
      → All (λ x. x.id ≤ max_int64) b.conn.tables.reports
      → All
          (λ row.
            (admin_get_report d sign env (report_request row.id) b).0
            ≡ report_shown row (sign_screenshot sign row))
          (joined b.conn.tables.users b.conn.tables.reports)
  admin_get_report-joined b up distinct small =
      let us = b.conn.tables.users in
      let rs = b.conn.tables.reports in
      All-both _ _ _ (joined us rs) (λ row fits found. admin_get_report-found b row up fits found)
        (joined-ids (λ id. id ≤ max_int64) us rs small) (joined-found us rs distinct)
