-- ===== src/Db/Reports.antt =====
-- `recordReport` of backend/db.go: all or nothing, and when it bans the reported user.
use banana_talk.Prelude.{
  ℕ, ◌+◌, ◌-◌, ◌≤◌, ◌<◌, String, ◌≡◌, ◌≢◌, ◌⊎◌, refl, sym, ap, ◌∙◌, inl, inr, Bool, true, false,
  not, ◌&&◌, some, ◌∷◌, ltb, ◌==ℕ◌, length, any, keep_if, Bool-cases, arith,
}
use banana_talk.Sql.{Tables, Environment, Conn, DbError, ok, err, ◌>>◌, sent, statement}
use banana_talk.Sql.Laws.{
  statement-ok, statement_then-ok, transaction-ok, transaction-err, SameRows, KeepsIds,
  KeepsIds-statement, KeepsIds-then,
}
use banana_talk.Db.Statements.{
  has_id, is_free, are_users, insert_block_row, one_more, with_ban, update_where, is_recent,
  insert_report_sql, insert_blocks_sql, bump_sql, count_recent_sql, ban_sql,
}
use banana_talk.Db.{
  auto_ban_threshold, auto_ban_window, local_time, ban_if_over, count_and_ban, report_statements,
  record_report,
}

-- The rows after a report, but for a ban.
abbrev pub filed : ℕ → ℕ → String → String → String → ℕ → Tables → Tables
filed reporter reported reason url key now t = record t {
  users = update_where (has_id reported) one_more t.users;
  reports =
      record {
        id = t.next_report_id;
        reporter_id = reporter;
        reported_id = reported;
        reason = reason;
        screenshot_url = url;
        screenshot_key = key;
        created_at = now;
      }
      ∷ t.reports;
  blocks = insert_block_row reported reporter now (insert_block_row reporter reported now t.blocks);
  next_report_id = t.next_report_id + 1;
}

abbrev pub banning : ℕ → ℕ → Tables → Tables
banning id now t = record t { users = update_where (is_free id) (with_ban (some now)) t.users }

-- How many reports against the user are as new as `since`.
abbrev pub recent_reports : ℕ → ℕ → Tables → ℕ
recent_reports id since t = length (keep_if (is_recent id since) t.reports)

ok_inj {ℓ} : {A : Type ℓ} {x y : A} → ok x ≡ ok y → x ≡ y
ok_inj {x} e = ap (elim [ err d ↦ x | ok z ↦ z ]) e

insert_report_sql-ok :
    (a b : ℕ) (reason url key : String) (now : ℕ) (t : Tables) {u : Unit {0}} {t' : Tables}
    → insert_report_sql a b reason url key now t ≡ (ok u, t')
    → (are_users a b t ≡ true)
      × (t' ≡ record t {
        reports = (filed a b reason url key now t).reports;
        next_report_id = t.next_report_id + 1;
      })
unfolding insert_report_sql
insert_report_sql-ok a b reason url key now t h = elim (Bool-cases (are_users a b t)) [
  | inl known ↦ (known, ap (λ p. p.1) (sym (rw known at h)))
  | inr unknown ↦ absurd (ground (arith, ap (λ p. p.0) (rw unknown at h)))
]

pub insert_blocks_sql-ok :
    (a b now : ℕ) (t : Tables) {u : Unit {0}} {t' : Tables}
    → insert_blocks_sql a b now t ≡ (ok u, t')
    → (a ≢ b)
      × (t' ≡ record t { blocks = insert_block_row b a now (insert_block_row a b now t.blocks) })
unfolding insert_blocks_sql
insert_blocks_sql-ok a b now t h = elim (Bool-cases (not (a ==ℕ b) && are_users a b t)) [
  | inl fits ↦ (ground arith, ap (λ p. p.1) (sym (rw fits at h)))
  | inr unfit ↦ absurd (ground (arith, ap (λ p. p.0) (rw unfit at h)))
]

insert_report_sql-ids :
    (a b : ℕ) (reason url key : String) (now : ℕ) (t : Tables)
    → (insert_report_sql a b reason url key now t).1.next_user_id ≡ t.next_user_id
unfolding insert_report_sql
insert_report_sql-ids a b reason url key now t = ground arith

insert_blocks_sql-ids :
    (a b now : ℕ) (t : Tables) → (insert_blocks_sql a b now t).1.next_user_id ≡ t.next_user_id
unfolding insert_blocks_sql
insert_blocks_sql-ids a b now t = ground arith

bump_sql-ids : (id : ℕ) (t : Tables) → (bump_sql id t).1.next_user_id ≡ t.next_user_id
unfolding bump_sql
bump_sql-ids id t = refl

count_recent_sql-ids :
    (id since : ℕ) (t : Tables) → (count_recent_sql id since t).1.next_user_id ≡ t.next_user_id
unfolding count_recent_sql
count_recent_sql-ids id since t = refl

-- How the count of recent reports and the ban turn out; `t` are the tables before, `t'` after.
abbrev pub Decided : ℕ → ℕ → ℕ → Tables → Bool → Tables → Type 0
Decided reported now since t banned t' =
    ((auto_ban_threshold < recent_reports reported since t)
      × (banned ≡ any (is_free reported) t.users)
      × (t' ≡ banning reported now t))
    ⊎ ((recent_reports reported since t ≤ auto_ban_threshold) × (banned ≡ false) × (t' ≡ t))

module _ (env : Environment) (reported now : ℕ) where
  ban_if_over-Decided :
      (recent : ℕ) (d c1 : Conn) {banned : Bool}
      → ban_if_over env reported now recent d ≡ (ok banned, c1)
      → ((auto_ban_threshold < recent)
          × (banned ≡ any (is_free reported) d.tables.users)
          × (c1.tables ≡ banning reported now d.tables))
        ⊎ ((recent ≤ auto_ban_threshold) × (banned ≡ false) × (c1.tables ≡ d.tables))
  unfolding ban_if_over ban_sql
  ban_if_over-Decided recent d c1 {banned} h = elim (Bool-cases (ltb auto_ban_threshold recent)) [
    | inl over ↦
        let (did, next) = statement-ok env (λ _. ban_sql reported now) d (rw over at h) in
        inl (ground arith, ok_inj (ap (λ p. p.0) (sym did)), ap (λ p. p.1) (sym did))
    | inr under ↦
        let k = rw under at h in
        inr (ground arith, ok_inj (ap (λ p. p.0) (sym k)), ap (λ p. p.1.tables) (sym k))
  ]

  ban_if_over-KeepsIds : (recent : ℕ) → KeepsIds (ban_if_over env reported now recent)
  unfolding ban_if_over ban_sql
  ban_if_over-KeepsIds recent = elim (Bool-cases (ltb auto_ban_threshold recent)) [
    | inl over ↦ rw over (KeepsIds-statement env (λ _. ban_sql reported now) (λ _ t. refl))
    | inr under ↦ rw under (λ c. refl)
  ]

  count_and_ban-Decided :
      (n : ℕ) (t : Tables) (d c1 : Conn) {banned : Bool}
      → d.tables ≡ t
      → d.step ≡ n
      → count_and_ban env reported now d ≡ (ok banned, c1)
      → Decided reported now (env.local_now n - auto_ban_window) t banned c1.tables
  unfolding count_and_ban local_time count_recent_sql
  count_and_ban-Decided n t d c1 {banned} et en h =
      let (recent, d5, b5, p5, r5) =
        statement_then-ok env
          (λ _. count_recent_sql reported (env.local_now d.step - auto_ban_window))
          (ban_if_over env reported now) d h in
      let q = ban_if_over-Decided recent d5 c1 r5 in
      let er = ok_inj (ap (λ p. p.0) (sym b5)) in
      let e5 = ap (λ p. p.1) (sym b5) in rw (← et, ← en) (rw (er, e5) at q)

module _ (env : Environment) (reporter reported : ℕ) (reason url key : String) where
  report_statements-KeepsIds :
      (now : ℕ) → KeepsIds (report_statements env reporter reported reason url key now)
  unfolding report_statements count_and_ban local_time
  report_statements-KeepsIds now =
      let last = count_and_ban env reported now in
      let bumped = statement env (λ _. bump_sql reported) >> last in
      let blocked = statement env (λ _. insert_blocks_sql reporter reported now) >> bumped in
      KeepsIds-then env (λ _. insert_report_sql reporter reported reason url key now) (λ _. blocked)
        (λ _ t. insert_report_sql-ids reporter reported reason url key now t)
        λ _.
          KeepsIds-then env (λ _. insert_blocks_sql reporter reported now) (λ _. bumped)
            (λ _ t. insert_blocks_sql-ids reporter reported now t)
            λ _.
              KeepsIds-then env (λ _. bump_sql reported) (λ _. last)
                (λ _ t. bump_sql-ids reported t)
                λ _ c.
                  let since = env.local_now c.step - auto_ban_window in
                  KeepsIds-then env (λ _. count_recent_sql reported since)
                    (ban_if_over env reported now) (λ _ t. count_recent_sql-ids reported since t)
                    (ban_if_over-KeepsIds env reported now) c

  -- What a report that is recorded has done.
  pub record Recorded (c : Conn) (banned : Bool) (t' : Tables) : Type 0 where
    pub known : are_users reporter reported c.tables ≡ true
    pub distinct : reporter ≢ reported
    pub decided :
        Decided reported
          (env.now c.step)
          (env.local_now (c.step + 4) - auto_ban_window)
          (filed reporter reported reason url key (env.now c.step) c.tables)
          banned
          t'

  -- When recordReport succeeds, both users existed and differ; the rows of `filed` are written; and the
  -- reported user, if not banned yet, is banned exactly when more than 5 reports against the user are
  -- in the last 24 hours, the new one among them. The result says whether a row was banned.
  pub record_report-Recorded :
      (c : Conn) {banned : Bool} {c' : Conn}
      → record_report env reporter reported reason url key c ≡ (ok banned, c')
      → Recorded c banned c'.tables
  unfolding record_report report_statements count_and_ban local_time bump_sql count_recent_sql
  record_report-Recorded c {banned} {c'} h =
      let now = env.now c.step in
      let (c1, e1, same) =
        transaction-ok env (report_statements env reporter reported reason url key) c h in
      let last = count_and_ban env reported now in
      let bumped = statement env (λ _. bump_sql reported) >> last in
      let blocked = statement env (λ _. insert_blocks_sql reporter reported now) >> bumped in
      let (u1, d1, b1, p1, r1) =
        statement_then-ok env (λ _. insert_report_sql reporter reported reason url key now)
          (λ _. blocked) (sent c) e1 in
      let (u2, d2, b2, p2, r2) =
        statement_then-ok env (λ _. insert_blocks_sql reporter reported now) (λ _. bumped) d1 r1 in
      let (u3, d3, b3, p3, r3) = statement_then-ok env (λ _. bump_sql reported) (λ _. last) d2 r2 in
      let (known, t1) = insert_report_sql-ok reporter reported reason url key now c.tables b1 in
      let (distinct, t2) = insert_blocks_sql-ok reporter reported now d1.tables b2 in
      let t3 = ap (λ p. p.1) (sym b3) in
      let blocks_of : Tables → Tables = λ t. record t {
        blocks =
            insert_block_row reported reporter now
              (insert_block_row reporter reported now t.blocks);
      } in
      record {
        known = known;
        distinct = distinct;
        decided = rw same (
            count_and_ban-Decided env reported now (c.step + 4)
              (filed reporter reported reason url key now c.tables) d3 c1
              (t3 ∙ ap (λ t. (bump_sql reported t).1) (t2 ∙ ap blocks_of t1))
              (omega (arith, p1, p2, p3)) r3);
      }

  -- A report that is not recorded leaves the rows of all tables, and the next user id, as they were,
  -- at whichever statement it failed.
  pub record_report-atomic :
      (c : Conn) {e : DbError} {c' : Conn}
      → record_report env reporter reported reason url key c ≡ (err e, c')
      → SameRows c'.tables c.tables × (c'.tables.next_user_id ≡ c.tables.next_user_id)
  unfolding record_report
  record_report-atomic c h =
      transaction-err env (report_statements env reporter reported reason url key) c
        (report_statements-KeepsIds (env.now c.step)) h
