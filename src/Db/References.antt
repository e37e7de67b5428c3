-- ===== src/Db/References.antt =====
-- The reports in the tables of backend/db.go after any calls: their users and their ids.
pub mod Kept
use native.Mathlib.Nat.{le_trans, le_refl}
use banana_talk.Prelude.{
  ℕ, ◌+◌, ◌-◌, ◌≤◌, ◌<◌, String, ◌≡◌, ◌≢◌, refl, sym, ap, subst, ◌∙◌, ◌⊎◌, inl, inr, Bool, true,
  false, not, ◌&&◌, Option, none, some, List, [], ◌∷◌, ◌==ℕ◌, if◌then◌else◌, ltb, any, All, All-map,
  Bool-cases, Option-cases, arith,
}
use banana_talk.Sql.{
  User, Report, Tables, Environment, Conn, Result, ok, err, no_rows, failed, ◌>>◌, statement,
}
use banana_talk.Sql.Laws.{SameRows}
use banana_talk.Sql.Advances.{Advances, Advances-statement, Advances-transaction, Advances-then}
use banana_talk.Db.Statements.{
  has_sub, has_id, first_where, update_where, are_users, new_user, one_more, upsert_sql,
  insert_report_sql, insert_blocks_sql, bump_sql, count_recent_sql, ban_sql, ban_returning_sql,
  unban_returning_sql, select_sub_sql,
}
use banana_talk.Db.Reports.{filed, Decided, record_report-Recorded, record_report-atomic}
use banana_talk.Db.ReportRows.Pages.{IsReferenced}
use banana_talk.Db.ReportRows.Found.{Distinct}
use banana_talk.Db.Calls.{
  settle-tables, Call, upserts, reports, bans, unbans, blocks_pair, perform, perform_all,
}
use banana_talk.Db.{
  auto_ban_threshold, auto_ban_window, local_time, ban_if_over, count_and_ban, report_statements,
  upsert_user, record_report, ban_user, unban_user, settle, insert_block,
}

-- Both users of each report have rows; the ids of the reports are distinct and below the next one.
pub record Referenced (t : Tables) : Type 0 where
  pub known : All (IsReferenced t.users) t.reports
  pub distinct : Distinct t.reports
  pub old : All (λ r. r.id < t.next_report_id) t.reports

-- No id is lost.
abbrev Keeps : List User → List User → Type 0
Keeps us vs = (id : ℕ) → any (has_id id) us ≡ true → any (has_id id) vs ≡ true

update_where-Keeps :
    (p : User → Bool) (f : User → User) (us : List User)
    → ((u : User) → (f u).id ≡ u.id)
    → Keeps us (update_where p f us)
update_where-Keeps p f [] same id h = h
update_where-Keeps p f (u ∷ us) same id h = elim (Bool-cases (p u)) [
  | inl hit ↦ rw hit (ground (arith, h, same u, update_where-Keeps p f us same id))
  | inr miss ↦ rw miss (ground (arith, h, update_where-Keeps p f us same id))
]

Referenced-users :
    (t : Tables) (us : List User)
    → Keeps t.users us
    → Referenced t
    → Referenced (record t { users = us })
Referenced-users t us keeps h = record {
  known =
      All-map (IsReferenced t.users) (IsReferenced us) t.reports
        (λ r k. (keeps r.reporter_id k.0, keeps r.reported_id k.1)) h.known;
  distinct = h.distinct;
  old = h.old;
}

-- Only the users, the reports and the next report id count.
Referenced-same :
    {s t : Tables}
    → t.users ≡ s.users
    → t.reports ≡ s.reports
    → s.next_report_id ≤ t.next_report_id
    → Referenced s
    → Referenced t
Referenced-same {s} {t} eu er le h = record {
  known = rw (eu, er) h.known;
  distinct = rw er h.distinct;
  old = rw er (
      All-map (λ r. r.id < s.next_report_id) (λ r. r.id < t.next_report_id) s.reports
        (λ r k. omega (arith, k, le)) h.old);
}

Referenced-filed :
    (a b : ℕ) (reason url key : String) (now : ℕ) (t : Tables)
    → are_users a b t ≡ true
    → Referenced t
    → Referenced (filed a b reason url key now t)
Referenced-filed a b reason url key now t both h =
    let base =
      Referenced-users t (update_where (has_id b) one_more t.users)
        (update_where-Keeps (has_id b) one_more t.users (λ u. refl)) h in
    let keeps = update_where-Keeps (has_id b) one_more t.users (λ u. refl) in
    record {
      known = ((keeps a (ground (arith, both)), keeps b (ground (arith, both))), base.known);
      distinct = (
        All-map (λ r. r.id < t.next_report_id) (λ r. r.id ≢ t.next_report_id) t.reports
            (λ r k. ground (arith, k)) h.old,
        h.distinct,
      );
      old = (
        omega arith,
        All-map (λ r. r.id < t.next_report_id) (λ r. r.id < t.next_report_id + 1) t.reports
            (λ r k. omega (arith, k)) h.old,
      );
    }
