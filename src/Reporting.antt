-- ===== src/Reporting.antt =====
-- backend/report.go: POST /report, which files a report with a screenshot and may ban the reported
-- user. The form is what Go's multipart parser gives for at most 5 MiB and 1 KiB; the storage and
-- the random part of the screenshot's name are parameters. An upload that is not followed by a
-- report leaves its object in the storage, which is not modelled.
pub mod Filed
pub mod Accepted
pub mod Refused
pub mod Named
pub mod Kept
mod Tests
use Prim.Native.String.{len, ◌++◌}
use banana_talk.Prelude.{
  ℕ, String, Bool, true, false, ◌&&◌, Option, none, some, ◌∷◌, ◌==◌, ltb, if◌then◌else◌, has,
}
use banana_talk.Metrics.{count_report}
use banana_talk.Redis.{Redis}
use banana_talk.Matchmaker.{add_block}
use banana_talk.Sql.{
  Environment, Conn, Query, Result, ok, err, failed, ◌>>=◌, pure, statement, transaction,
}
use banana_talk.Db.{upsert_user, record_report}
use banana_talk.Http.{
  Request, Response, error, reported, method_not_allowed, invalid_token, internal_error,
}
use banana_talk.Auth.{Payload, authenticate}
use banana_talk.Strings.{trim_space, cut_at}
use banana_talk.Backend.{Backend, known_or_stub}

-- 5 MiB
abbrev pub max_screenshot_bytes : ℕ
max_screenshot_bytes = 5242880

abbrev pub max_reason_len : ℕ
max_reason_len = 500

-- The form with its two texts and the size of the screenshot, if it has one; or the reason why it
-- could not be read.
pub data Form : Type 0 where
  too_large malformed : Form
  form : (reported_user_id reason : String) (screenshot : Option ℕ) → Form

-- The reason as it is stored; `none` is a text that is not UTF-8.
abbrev pub kept_reason : String → Option String
kept_reason reason =
    if ltb max_reason_len (len reason) then cut_at max_reason_len reason else some reason

-- `random_hex` is what `hex.EncodeToString` makes of the random bytes, if there are any.
abbrev pub screenshot_key : Option String → Option String
screenshot_key none = none
screenshot_key (some hex) = some ("reports/" ++ hex ++ ".png")

module _ (env : Environment) where
  pub report_ids : String → String → Query (ℕ × ℕ)
  report_ids reporter_sub reported_sub = do
    reporter ← upsert_user env reporter_sub
    id ← known_or_stub env reported_sub
    pure (reporter.0, id)

  -- `recordReport`; PostgreSQL refuses a text that is not UTF-8 at the first statement.
  pub persist : ℕ → ℕ → Option String → String → String → Query Bool
  persist reporter_id reported_id (some reason) url key =
      record_report env reporter_id reported_id reason url key
  persist reporter_id reported_id none url key =
      transaction env (λ now. statement env (λ at t. (err failed, t)))

module _ (r : Redis) (env : Environment) (validate : String → Option Payload) (now : ℕ)
    (random_hex : Option String) (upload : String → Option String) where
  finish_report : String → String → Backend r → Result Bool × Conn → Response × Backend r
  finish_report reporter_sub reported_sub b (err e, c) = (internal_error, record b { conn = c })
  finish_report reporter_sub reported_sub b (ok banned, c) = (
    reported banned,
    record b {
      conn = c;
      store = add_block r reported_sub reporter_sub (add_block r reporter_sub reported_sub b.store);
      metrics = count_report banned b.metrics;
      closed = if banned && has b.clients reported_sub then reported_sub ∷ b.closed else b.closed;
    },
  )

  pub report_stored :
      String → String → String → ℕ × ℕ → String → Option String → Backend r → Response × Backend r
  unfolding finish_report
  report_stored reporter_sub reported_sub reason ids key none b =
      (error 502 "upload_failed" "screenshot upload failed", b)
  report_stored reporter_sub reported_sub reason ids key (some url) b =
      finish_report reporter_sub reported_sub b
        (persist env ids.0 ids.1 (kept_reason reason) url key b.conn)

  report_named : String → String → String → ℕ × ℕ → Option String → Backend r → Response × Backend r
  unfolding report_stored
  report_named reporter_sub reported_sub reason ids none b = (internal_error, b)
  report_named reporter_sub reported_sub reason ids (some key) b =
      report_stored reporter_sub reported_sub reason ids key (upload key) b

  report_known : String → String → String → Backend r → Result (ℕ × ℕ) × Conn → Response × Backend r
  unfolding report_named
  report_known reporter_sub reported_sub reason b (err e, c) =
      (internal_error, record b { conn = c })
  report_known reporter_sub reported_sub reason b (ok ids, c) =
      report_named reporter_sub reported_sub reason ids (screenshot_key random_hex)
        (record b { conn = c })

  report_file : String → String → String → Option ℕ → Backend r → Response × Backend r
  unfolding report_known
  report_file reporter_sub reported_sub reason none b =
      (error 400 "missing_screenshot" "screenshot is required", b)
  report_file reporter_sub reported_sub reason (some size) b =
      if ltb max_screenshot_bytes size
      then (error 413 "screenshot_too_large" "screenshot exceeds 5MB limit", b)
      else report_known reporter_sub reported_sub reason b
          (report_ids env reporter_sub reported_sub b.conn)

  report_texts : String → String → String → Option ℕ → Backend r → Response × Backend r
  unfolding report_file
  report_texts reporter_sub reported_sub reason screenshot b =
      if reported_sub == ""
      then (error 400 "missing_reported_user" "reported_user_id is required", b)
      else if reported_sub == reporter_sub
      then (error 400 "self_report" "cannot report yourself", b)
      else if reason == ""
      then (error 400 "missing_reason" "reason is required", b)
      else report_file reporter_sub reported_sub reason screenshot b

  report_form : String → Form → Backend r → Response × Backend r
  unfolding report_texts
  report_form reporter_sub too_large b =
      (error 413 "request_too_large" "request body exceeds 5MB limit", b)
  report_form reporter_sub malformed b = (error 400 "invalid_form" "invalid multipart form", b)
  report_form reporter_sub (form id reason screenshot) b =
      report_texts reporter_sub (trim_space id) (trim_space reason) screenshot b

  report_by : Option String → Form → Backend r → Response × Backend r
  unfolding report_form
  report_by none f b = (invalid_token, b)
  report_by (some reporter_sub) f b = report_form reporter_sub f b

  pub report_handler : Request → Form → Backend r → Response × Backend r
  unfolding report_by
  report_handler req f b =
      if req.method == "POST"
      then report_by (authenticate validate now req) f b
      else (method_not_allowed, b)
