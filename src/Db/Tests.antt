-- ===== src/Db/Tests.antt =====
-- Runs of the calls of backend/db.go on small tables, to which the theorems about them apply.
use banana_talk.Prelude.{
  if◌then◌else◌, ℕ, ◌≡◌, refl, false, true, List, [], ◌∷◌, String, ◌≢◌, arith, eq_iff,
}
use banana_talk.Sql.{User, Report, Environment, Conn, ok}
use banana_talk.Sql.Laws.{SameRows}
use banana_talk.Db.Statements.{
  new_user, upsert_sql, insert_report_sql, insert_block_row, insert_blocks_sql, bump_sql,
  count_recent_sql, ban_sql, ban_returning_sql, unban_returning_sql, select_sub_sql,
  select_user_sql, load_blocks_sql,
}
use banana_talk.Db.Reports.{Recorded, record_report-Recorded}
use banana_talk.Db.Answers.{is_ok, all_answer, complete, record_report-answers}
use banana_talk.Db.Rows.{Unique}
use banana_talk.Db.Toggles.{ban_user-is_user_banned, unban_user-is_user_banned}
use banana_talk.Db.Invariant.{Valid}
use banana_talk.Db.Calls.{
  Call, upserts, reports, bans, unbans, blocks_pair, perform_all, perform_all-Valid,
}
use banana_talk.Db.References.{Referenced}
use banana_talk.Db.References.Kept.{perform_all-Referenced}
use banana_talk.Db.{
  local_time, ban_if_over, count_and_ban, report_statements, record_report, ban_user, unban_user,
  settle, look_up_sub, insert_block, load_user_blocks, upsert_user, get_user_id_by_google_sub,
  is_user_banned,
}

-- No statement fails, and both clocks stand still.
abbrev calm : Environment
calm = record { fails = λ n. false; now = λ n. 20; local_now = λ n. 20 }

abbrev filed_at : ℕ → ℕ → Report
filed_at k at = record {
  id = k;
  reporter_id = 1;
  reported_id = 2;
  reason = "spam";
  screenshot_url = "";
  screenshot_key = "";
  created_at = at;
}

abbrev alice : User
alice = new_user 1 "alice" 0

abbrev bob : User
bob = new_user 2 "bob" 0

-- Two users and nothing else.
abbrev fresh : Conn
fresh = record {
  tables = record {
    users = bob ∷ alice ∷ [];
    reports = [];
    blocks = [];
    next_user_id = 3;
    next_report_id = 1;
  };
  step = 0;
}

-- The same after five reports against bob.
abbrev five : Conn
five = record {
  tables = record fresh.tables {
    users = record bob { reports_received_count = 5 } ∷ alice ∷ [];
    reports = filed_at 5 10 ∷ filed_at 4 10 ∷ filed_at 3 10 ∷ filed_at 2 10 ∷ filed_at 1 10 ∷ [];
    next_report_id = 6;
  };
  step = 0;
}

runs_queries : Unit {0}
unfolding local_time ban_if_over count_and_ban report_statements record_report ban_user unban_user
    settle look_up_sub insert_block load_user_blocks upsert_user get_user_id_by_google_sub
    is_user_banned upsert_sql insert_report_sql insert_block_row insert_blocks_sql bump_sql
    count_recent_sql ban_sql ban_returning_sql unban_returning_sql select_sub_sql select_user_sql
    load_blocks_sql
runs_queries = tt

alice_bob : ◌≢◌ {A = String} "alice" "bob"
alice_bob = ground (arith, eq_iff "alice" "bob")

fresh-Valid : Valid fresh.tables
fresh-Valid = record {
  symmetric = λ a b. refl;
  irreflexive = λ a. refl;
  counted = (refl, (refl, tt));
  unique = (((λ e. omega (arith, e), alice_bob), tt), (tt, tt));
  old_ids = (omega arith, (omega arith, tt));
  old_reports = tt;
}

sixth : Conn
sixth = (record_report calm 1 2 "spam" "" "" five).1

sixth_bans : record_report calm 1 2 "spam" "" "" five ≡ (ok true, sixth)
unfolding sixth runs_queries
sixth_bans = refl

record_report-Recorded_example : Recorded calm 1 2 "spam" "" "" five true sixth.tables
record_report-Recorded_example = record_report-Recorded calm 1 2 "spam" "" "" five sixth_bans

record_report-answers_example :
    (is_ok (record_report calm 1 2 "spam" "" "" five).0 ≡ all_answer calm 1 2 "spam" "" "" five)
    × SameRows sixth.tables (
        if all_answer calm 1 2 "spam" "" "" five
        then complete calm 1 2 "spam" "" "" five
        else five.tables)
unfolding sixth
record_report-answers_example = record_report-answers calm 1 2 "spam" "" "" five

-- The sixth report is recorded, and alice cannot report herself.
answers_sixth :
    (all_answer calm 1 2 "spam" "" "" five ≡ true) × (all_answer calm 1 1 "spam" "" "" five ≡ false)
answers_sixth = (refl, refl)

abbrev some_calls : List Call
some_calls = upserts "carol" ∷ reports 1 2 "spam" "" "" ∷ bans 1 ∷ blocks_pair 3 1 ∷ unbans 2 ∷ []

perform_all-Valid_example : Valid (perform_all calm some_calls fresh).tables
perform_all-Valid_example = perform_all-Valid calm some_calls fresh fresh-Valid

perform_all-Referenced_example : Referenced (perform_all calm some_calls fresh).tables
perform_all-Referenced_example =
    perform_all-Referenced calm some_calls fresh (record { known = tt; distinct = tt; old = tt })

banned_bob : Conn
banned_bob = (ban_user calm 2 five).1

ban_bob : ban_user calm 2 five ≡ (ok ("bob", true), banned_bob)
unfolding banned_bob runs_queries
ban_bob = refl

five-Unique : Unique five.tables.users
five-Unique = (((λ e. omega (arith, e), alice_bob), tt), (tt, tt))

ban_user-is_user_banned_example :
    ((is_user_banned calm "bob" five).0 ≡ ok false)
    × (calm.fails banned_bob.step ≡ false → (is_user_banned calm "bob" banned_bob).0 ≡ ok true)
ban_user-is_user_banned_example = ban_user-is_user_banned calm 2 five five-Unique ban_bob

free_bob : Conn
free_bob = (unban_user calm 2 five).1

unban_bob : unban_user calm 2 five ≡ (ok ("bob", false), free_bob)
unfolding free_bob runs_queries
unban_bob = refl

unban_user-is_user_banned_example :
    ((is_user_banned calm "bob" five).0 ≡ ok false)
    × (calm.fails free_bob.step ≡ false → (is_user_banned calm "bob" free_bob).0 ≡ ok false)
unban_user-is_user_banned_example = unban_user-is_user_banned calm 2 five five-Unique unban_bob
