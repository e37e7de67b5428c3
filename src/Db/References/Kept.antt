-- ===== src/Db/References/Kept.antt =====
-- The calls of backend/db.go keep the users and the ids of the reports in order.
use native.Mathlib.Nat.{le_refl}
use banana_talk.Prelude.{
  ℕ, ◌-◌, ◌≤◌, String, ◌≡◌, refl, subst, inl, inr, Bool, not, ◌&&◌, List, [], ◌∷◌, ◌==ℕ◌, ltb,
  Bool-cases, Option-cases, arith,
}
use banana_talk.Sql.{Tables, Environment, Conn, Result, ok, err, ◌>>◌, statement}
use banana_talk.Sql.Advances.{Advances, Advances-statement, Advances-transaction, Advances-then}
use banana_talk.Db.Statements.{
  has_sub, first_where, are_users, new_user, upsert_sql, insert_report_sql, insert_blocks_sql,
  bump_sql, count_recent_sql, ban_sql, ban_returning_sql, unban_returning_sql,
}
use banana_talk.Db.Reports.{Decided, record_report-Recorded, record_report-atomic}
use banana_talk.Db.Calls.{
  settle-tables, Call, upserts, reports, bans, unbans, blocks_pair, perform, perform_all,
}
use banana_talk.Db.{
  auto_ban_threshold, auto_ban_window, local_time, ban_if_over, count_and_ban, report_statements,
  upsert_user, record_report, ban_user, unban_user, insert_block,
}
use banana_talk.Db.References.{
  Referenced, update_where-Keeps, Referenced-users, Referenced-same, Referenced-filed,
}

module _ (env : Environment) where
  statement-Referenced :
      {A : Type 0} (body : ℕ → Tables → Result A × Tables) (c : Conn)
      → ((now : ℕ) (t : Tables) → Referenced t → Referenced (body now t).1)
      → Referenced c.tables
      → Referenced (statement env body c).1.tables
  statement-Referenced body c keep h = elim (Bool-cases (env.fails c.step)) [
    | inl bad ↦ rw bad h
    | inr good ↦ rw good (keep (env.now c.step) c.tables h)
  ]

  ban_if_over-Advances : (reported now recent : ℕ) → Advances (ban_if_over env reported now recent)
  unfolding ban_if_over ban_sql
  ban_if_over-Advances reported now recent = elim (Bool-cases (ltb auto_ban_threshold recent)) [
    | inl over ↦
        rw over
          (Advances-statement env (λ _. ban_sql reported now) (λ _ t. le_refl t.next_report_id))
    | inr under ↦ rw under (λ c. le_refl c.tables.next_report_id)
  ]

  record_report-Advances :
      (a b : ℕ) (reason url key : String) → Advances (record_report env a b reason url key)
  unfolding record_report report_statements count_and_ban local_time bump_sql count_recent_sql
      insert_report_sql insert_blocks_sql
  record_report-Advances a b reason url key =
      Advances-transaction env (report_statements env a b reason url key) (λ now.
        let last = count_and_ban env b now in
        let bumped = statement env (λ _. bump_sql b) >> last in
        let blocked = statement env (λ _. insert_blocks_sql a b now) >> bumped in
        Advances-then env (λ _. insert_report_sql a b reason url key now) (λ _. blocked)
          (λ _ t. ground arith)
          λ _.
            Advances-then env (λ _. insert_blocks_sql a b now) (λ _. bumped) (λ _ t. ground arith)
              λ _.
                Advances-then env (λ _. bump_sql b) (λ _. last) (λ _ t. le_refl t.next_report_id)
                  λ _ c.
                    let since = env.local_now c.step - auto_ban_window in
                    Advances-then env (λ _. count_recent_sql b since) (ban_if_over env b now)
                      (λ _ t. le_refl t.next_report_id) (ban_if_over-Advances b now) c)

  Decided-Referenced :
      (b now since : ℕ) (t t' : Tables) (banned : Bool)
      → Decided b now since t banned t'
      → Referenced t
      → Referenced t'
  Decided-Referenced b now since t t' banned (inl (over, hit, e)) h =
      rw e (Referenced-users t _ (update_where-Keeps _ _ t.users (λ u. refl)) h)
  Decided-Referenced b now since t t' banned (inr (under, hit, e)) h = rw e h

  record_report-Referenced :
      (a b : ℕ) (reason url key : String) (c : Conn)
      → Referenced c.tables
      → Referenced (record_report env a b reason url key c).1.tables
  record_report-Referenced a b reason url key c h =
      let (x, c') = record_report env a b reason url key c in cases x c' refl
    where
      cases :
          (x : Result Bool) (c' : Conn)
          → record_report env a b reason url key c ≡ (x, c')
          → Referenced c'.tables
      cases (ok banned) c' e =
          let p = record_report-Recorded env a b reason url key c e in
          Decided-Referenced b _ _ _ c'.tables banned p.decided
            (Referenced-filed a b reason url key (env.now c.step) c.tables p.known h)
      cases (err d) c' e =
          let ((same_users, same_reports, _), _) =
            record_report-atomic env a b reason url key c e in
          Referenced-same same_users same_reports
            (subst (λ p. c.tables.next_report_id ≤ p.1.tables.next_report_id) e
              (record_report-Advances a b reason url key c))
            h

  upsert_sql-Referenced :
      (sub : String) (now : ℕ) (t : Tables) → Referenced t → Referenced (upsert_sql sub now t).1
  unfolding upsert_sql
  upsert_sql-Referenced sub now t h = elim (Option-cases (first_where (has_sub sub) t.users)) [
    | inl fresh ↦
        rw (fresh, upsert_sql)
          (Referenced-same refl refl (le_refl t.next_report_id) (
            Referenced-users t (new_user t.next_user_id sub now ∷ t.users)
              (λ id k. ground (arith, k)) h))
    | inr (u, found) ↦
        rw (found, upsert_sql) (Referenced-same refl refl (le_refl t.next_report_id) h)
  ]

  insert_blocks_sql-Referenced :
      (a b now : ℕ) (t : Tables) → Referenced t → Referenced (insert_blocks_sql a b now t).1
  unfolding insert_blocks_sql
  insert_blocks_sql-Referenced a b now t h = elim (Bool-cases (not (a ==ℕ b) && are_users a b t)) [
    | inl fits ↦ rw fits (Referenced-same refl refl (le_refl t.next_report_id) h)
    | inr unfit ↦ rw unfit h
  ]

  ban_user-Referenced :
      (id : ℕ) (c : Conn) → Referenced c.tables → Referenced (ban_user env id c).1.tables
  unfolding ban_user ban_returning_sql
  ban_user-Referenced id c h =
      let (x, c1) = statement env (ban_returning_sql id) c in
      rw (settle-tables env id x c1) (
        statement-Referenced (ban_returning_sql id) c
          (λ now t k. Referenced-users t _ (update_where-Keeps _ _ t.users (λ u. refl)) k) h)

  unban_user-Referenced :
      (id : ℕ) (c : Conn) → Referenced c.tables → Referenced (unban_user env id c).1.tables
  unfolding unban_user unban_returning_sql
  unban_user-Referenced id c h =
      let (x, c1) = statement env (λ _. unban_returning_sql id) c in
      rw (settle-tables env id x c1) (
        statement-Referenced (λ _. unban_returning_sql id) c
          (λ now t k. Referenced-users t _ (update_where-Keeps _ _ t.users (λ u. refl)) k) h)

  insert_block-Referenced :
      (a b : ℕ) (c : Conn) → Referenced c.tables → Referenced (insert_block env a b c).1.tables
  unfolding insert_block
  insert_block-Referenced a b c h = elim (Bool-cases (a ==ℕ b)) [
    | inl self ↦ rw self h
    | inr pair ↦
        rw pair
          (statement-Referenced (insert_blocks_sql a b) c (insert_blocks_sql-Referenced a b) h)
  ]

  pub perform-Referenced :
      (x : Call) (c : Conn) → Referenced c.tables → Referenced (perform env x c).tables
  unfolding upsert_user
  perform-Referenced (upserts sub) c h =
      statement-Referenced (upsert_sql sub) c (upsert_sql-Referenced sub) h
  perform-Referenced (reports a b reason url key) c h =
      record_report-Referenced a b reason url key c h
  perform-Referenced (bans id) c h = ban_user-Referenced id c h
  perform-Referenced (unbans id) c h = unban_user-Referenced id c h
  perform-Referenced (blocks_pair a b) c h = insert_block-Referenced a b c h

  -- Any calls, in any order and whichever of their statements fail, keep rows for both users of each
  -- report, so that the join of the dashboard loses none, and keep the ids of the reports distinct
  -- and below the next one.
  pub perform_all-Referenced :
      (xs : List Call) (c : Conn) → Referenced c.tables → Referenced (perform_all env xs c).tables
  unfolding perform_all
  perform_all-Referenced [] c h = h
  perform_all-Referenced (x ∷ xs) c h =
      perform_all-Referenced xs (perform env x c) (perform-Referenced x c h)
