-- ===== src/Reporting/Tests.antt =====
-- Runs of backend/report.go on empty tables and an in-memory store.
use banana_talk.Prelude.{◌==ℕ◌, String, ◌≡◌, refl, false, Option, some}
use banana_talk.Redis.Memory.{memory}
use banana_talk.Matchmaker.{add_block}
use banana_talk.Db.Statements.{
  upsert_sql, insert_report_sql, insert_block_row, insert_blocks_sql, bump_sql, count_recent_sql,
  select_user_sql,
}
use banana_talk.Db.{
  upsert_user, get_user_id_by_google_sub, record_report, report_statements, count_and_ban,
  ban_if_over, local_time,
}
use banana_talk.Http.{error, reported}
use banana_talk.Auth.{bearer_token, verify_token, authenticate}
use banana_talk.Backend.Samples.{calm, knows, post, new_backend}
use banana_talk.Backend.{Backend, known_or_stub}
use banana_talk.Reporting.Refused.{Untouched, report_handler-Untouched}
use banana_talk.Sql.{Environment}
use banana_talk.Reporting.Accepted.{Accepted, report_handler-Accepted}
use banana_talk.Reporting.{
  Form, form, report_ids, persist, finish_report, report_stored, report_named, report_known,
  report_file, report_texts, report_form, report_by, report_handler,
}

abbrev bucket : String → Option String
bucket key = some key

runs_reporting : Unit {0}
unfolding report_ids persist finish_report report_stored report_named report_known report_file
    report_texts report_form report_by report_handler known_or_stub bearer_token verify_token
    authenticate upsert_user get_user_id_by_google_sub record_report report_statements count_and_ban
    ban_if_over local_time upsert_sql insert_report_sql insert_block_row insert_blocks_sql bump_sql
    count_recent_sql select_user_sql add_block
runs_reporting = tt

abbrev spam : Form
spam = form " bob" "spam" (some 1000)

after_report : Backend memory
after_report = (report_handler memory calm knows 99 (some "00ff") bucket post spam new_backend).1

report_succeeds :
    report_handler memory calm knows 99 (some "00ff") bucket post spam new_backend
    ≡ (reported false, after_report)
unfolding after_report runs_reporting
report_succeeds = refl

too_big :
    (report_handler memory calm knows 99
      (some "00ff")
      bucket
      post
      (form "bob" "spam" (some 5242881))
      new_backend).0
    ≡ error 413 "screenshot_too_large" "screenshot exceeds 5MB limit"
unfolding runs_reporting
too_big = refl

report_handler-Accepted_example :
    (reporter : String) × (authenticate knows 99 post ≡ some reporter)
    × Accepted memory calm knows 99
        (some "00ff")
        bucket
        reporter
        spam
        new_backend
        after_report
        false
report_handler-Accepted_example =
    report_handler-Accepted memory calm knows 99 (some "00ff") bucket post spam new_backend
      report_succeeds

-- The statement that counts the recent reports fails.
abbrev shaky : Environment
shaky = record calm { fails = λ n. n ==ℕ 7 }

after_failure : Backend memory
after_failure = (report_handler memory shaky knows 99 (some "00ff") bucket post spam new_backend).1

report_fails :
    report_handler memory shaky knows 99 (some "00ff") bucket post spam new_backend
    ≡ (error 500 "internal_error" "internal error", after_failure)
unfolding after_failure runs_reporting
report_fails = refl

report_handler-Untouched_example : Untouched new_backend after_failure
report_handler-Untouched_example =
    report_handler-Untouched memory shaky knows 99 (some "00ff") bucket 500 "internal_error"
      "internal error" after_failure post spam new_backend report_fails
