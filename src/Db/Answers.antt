-- ===== src/Db/Answers.antt =====
-- When `recordReport` of backend/db.go succeeds, and by how many statements.
use banana_talk.Prelude.{
  ℕ, ◌+◌, ◌-◌, String, ◌≡◌, refl, sym, ap, ◌∙◌, inl, inr, Bool, true, false, not, ◌&&◌, ◌||◌, ◌==ℕ◌,
  ltb, if◌then◌else◌, arith,
}
use banana_talk.Sql.{Tables, Environment, Conn, Result, ok, err}
use banana_talk.Sql.Laws.{SameRows}
use banana_talk.Db.Statements.{
  are_users, insert_report_sql, insert_blocks_sql, bump_sql, count_recent_sql, ban_sql,
}
use banana_talk.Db.Reports.{
  filed, banning, recent_reports, Recorded, record_report-Recorded, record_report-atomic,
}
use banana_talk.Db.{
  auto_ban_threshold, auto_ban_window, local_time, ban_if_over, count_and_ban, report_statements,
  record_report,
}

abbrev pub is_ok {ℓ} : {A : Type ℓ} → Result A → Bool
is_ok (ok a) = true
is_ok (err e) = false

module _ (env : Environment) where
  -- None of the six statements from the given one on fails.
  abbrev pub six_answer : ℕ → Bool
  six_answer n =
      not (env.fails n)
      && not (env.fails (n + 1))
      && not (env.fails (n + 2))
      && not (env.fails (n + 3))
      && not (env.fails (n + 4))
      && not (env.fails (n + 5))

  module _ (reporter reported : ℕ) (reason url key : String) where
    -- Whether more than 5 reports against the user are in the last 24 hours, the new one among them.
    abbrev pub over : Conn → Bool
    over c = ltb auto_ban_threshold (
        recent_reports reported (env.local_now (c.step + 4) - auto_ban_window)
          (filed reporter reported reason url key (env.now c.step) c.tables))

    -- Whether both users exist and differ and no statement fails; the ban takes one more.
    abbrev pub all_answer : Conn → Bool
    all_answer c =
        not (reporter ==ℕ reported)
        && are_users reporter reported c.tables
        && six_answer c.step
        && (not (over c) || not (env.fails (c.step + 6)))

    -- The rows with the report and all that follows from it.
    abbrev pub complete : Conn → Tables
    complete c =
        let now = env.now c.step in
        let t = filed reporter reported reason url key now c.tables in
        if over c then banning reported now t else t

    record_report-is_ok :
        (c : Conn) → is_ok (record_report env reporter reported reason url key c).0 ≡ all_answer c
    unfolding record_report report_statements count_and_ban local_time ban_if_over insert_report_sql
        insert_blocks_sql bump_sql count_recent_sql ban_sql
    record_report-is_ok c = ground arith

    Decided-complete :
        (c : Conn) (banned : Bool) (t' : Tables)
        → Recorded env reporter reported reason url key c banned t'
        → t' ≡ complete c
    Decided-complete c banned t' p = elim (p.decided) [
      | inl (many, hit, e) ↦ let k : over c ≡ true = ground (arith, many) in e ∙ rw k refl
      | inr (few, hit, e) ↦ let k : over c ≡ false = ground (arith, few) in e ∙ rw k refl
    ]

    SameRows-of : (s t : Tables) → s ≡ t → SameRows s t
    SameRows-of s t e = (ap (λ x. x.users) e, ap (λ x. x.reports) e, ap (λ x. x.blocks) e)

    -- recordReport succeeds exactly if the two users exist and differ and none of its statements fails,
    -- BEGIN and COMMIT among them, which are six, and a seventh for the ban if more than 5 reports
    -- against the user are in the last 24 hours. Then the rows of the users, reports and blocks are
    -- those before with all of the report: its row, both block rows, one more report received, and
    -- the ban. Otherwise they are as before.
    pub record_report-answers :
        (c : Conn)
        → let (x, c') = record_report env reporter reported reason url key c in
          (is_ok x ≡ all_answer c)
          × SameRows c'.tables (if all_answer c then complete c else c.tables)
    record_report-answers c =
        let (x, c') = record_report env reporter reported reason url key c in
        (record_report-is_ok c, go x c' refl (sym (record_report-is_ok c)))
      where
        go :
            (x : Result Bool) (c' : Conn)
            → record_report env reporter reported reason url key c ≡ (x, c')
            → all_answer c ≡ is_ok (record_report env reporter reported reason url key c).0
            → SameRows c'.tables (if all_answer c then complete c else c.tables)
        go (ok banned) c' e k = rw (k ∙ ap (λ q. is_ok q.0) e) (
            SameRows-of c'.tables (complete c) (
              Decided-complete c banned c'.tables
                (record_report-Recorded env reporter reported reason url key c e)))
        go (err d) c' e k =
            rw (k ∙ ap (λ q. is_ok q.0) e)
              (record_report-atomic env reporter reported reason url key c e).0
