-- ===== src/Db/Calls.antt =====
-- Sequences of the calls that change the tables (backend/db.go), whatever each of them returns.
use banana_talk.Prelude.{
  ℕ, String, ◌≡◌, refl, inl, inr, Bool, List, [], ◌∷◌, ◌==ℕ◌, Bool-cases, Option-cases, arith, not,
  ◌&&◌,
}
use banana_talk.Sql.{Tables, Environment, Conn, Result, ok, err, no_rows, failed, statement}
use banana_talk.Db.Statements.{
  has_sub, first_where, are_users, upsert_sql, insert_blocks_sql, ban_returning_sql,
  unban_returning_sql, select_sub_sql,
}
use banana_talk.Db.Reports.{Decided, record_report-Recorded, record_report-atomic}
use banana_talk.Db.Invariant.{
  Valid, Valid-same, Valid-banned, Valid-block, Valid-filed, Valid-grow, Valid-new_user,
}
use banana_talk.Db.{upsert_user, record_report, ban_user, unban_user, settle, insert_block}

-- The calls with their arguments.
pub data Call : Type 0 where
  upserts : String → Call
  reports : (reporter reported : ℕ) (reason url key : String) → Call
  bans unbans : ℕ → Call
  blocks_pair : ℕ → ℕ → Call

upsert_sql-Valid : (sub : String) (now : ℕ) (t : Tables) → Valid t → Valid (upsert_sql sub now t).1
unfolding upsert_sql
upsert_sql-Valid sub now t v = elim (Option-cases (first_where (has_sub sub) t.users)) [
  | inl fresh ↦ rw (fresh, upsert_sql) (Valid-new_user sub now t fresh v)
  | inr (u, found) ↦ rw (found, upsert_sql) (Valid-grow t v)
]

ban_returning_sql-Valid : (id now : ℕ) (t : Tables) → Valid t → Valid (ban_returning_sql id now t).1
unfolding ban_returning_sql
ban_returning_sql-Valid id now t v = Valid-banned _ _ t v

unban_returning_sql-Valid : (id : ℕ) (t : Tables) → Valid t → Valid (unban_returning_sql id t).1
unfolding unban_returning_sql
unban_returning_sql-Valid id t v = Valid-banned _ _ t v

insert_blocks_sql-Valid :
    (a b now : ℕ) (t : Tables) → Valid t → Valid (insert_blocks_sql a b now t).1
unfolding insert_blocks_sql
insert_blocks_sql-Valid a b now t v = elim (Bool-cases (not (a ==ℕ b) && are_users a b t)) [
  | inl fits ↦ rw fits (Valid-block a b now t (ground arith) v)
  | inr unfit ↦ rw unfit v
]

Decided-Valid :
    (b now since : ℕ) (t t' : Tables) (banned : Bool)
    → Decided b now since t banned t'
    → Valid t
    → Valid t'
Decided-Valid b now since t t' banned (inl (over, hit, e)) v = rw e (Valid-banned _ _ t v)
Decided-Valid b now since t t' banned (inr (under, hit, e)) v = rw e v

module _ (env : Environment) where
  abbrev pub perform : Call → Conn → Conn
  perform (upserts sub) c = (upsert_user env sub c).1
  perform (reports reporter reported reason url key) c =
      (record_report env reporter reported reason url key c).1
  perform (bans id) c = (ban_user env id c).1
  perform (unbans id) c = (unban_user env id c).1
  perform (blocks_pair a b) c = (insert_block env a b c).1

  unfoldable pub perform_all : List Call → Conn → Conn
  perform_all [] c = c
  perform_all (x ∷ xs) c = perform_all xs (perform x c)

  statement-Valid :
      {A : Type 0} (body : ℕ → Tables → Result A × Tables) (c : Conn)
      → ((now : ℕ) (t : Tables) → Valid t → Valid (body now t).1)
      → Valid c.tables
      → Valid (statement env body c).1.tables
  statement-Valid body c keep v = elim (Bool-cases (env.fails c.step)) [
    | inl bad ↦ rw bad v
    | inr good ↦ rw good (keep (env.now c.step) c.tables v)
  ]

  record_report-Valid :
      (a b : ℕ) (reason url key : String) (c : Conn)
      → Valid c.tables
      → Valid (record_report env a b reason url key c).1.tables
  record_report-Valid a b reason url key c v =
      let (x, c') = record_report env a b reason url key c in cases x c' refl
    where
      cases :
          (x : Result Bool) (c' : Conn)
          → record_report env a b reason url key c ≡ (x, c')
          → Valid c'.tables
      cases (ok banned) c' e =
          let p = record_report-Recorded env a b reason url key c e in
          Decided-Valid b _ _ _ c'.tables banned p.decided
            (Valid-filed a b reason url key (env.now c.step) c.tables p.distinct p.known v)
      cases (err d) c' e =
          let (rows, ids) = record_report-atomic env a b reason url key c e in Valid-same rows ids v

  pub settle-tables :
      (id : ℕ) (x : Result String) (c : Conn) → (settle env id x c).1.tables ≡ c.tables
  unfolding settle select_sub_sql
  settle-tables id (ok sub) c = refl
  settle-tables id (err no_rows) c = ground arith
  settle-tables id (err failed) c = refl

  ban_user-Valid : (id : ℕ) (c : Conn) → Valid c.tables → Valid (ban_user env id c).1.tables
  unfolding ban_user
  ban_user-Valid id c v =
      let (x, c1) = statement env (ban_returning_sql id) c in
      rw (settle-tables id x c1)
        (statement-Valid (ban_returning_sql id) c (ban_returning_sql-Valid id) v)

  unban_user-Valid : (id : ℕ) (c : Conn) → Valid c.tables → Valid (unban_user env id c).1.tables
  unfolding unban_user
  unban_user-Valid id c v =
      let (x, c1) = statement env (λ _. unban_returning_sql id) c in
      rw (settle-tables id x c1)
        (statement-Valid (λ _. unban_returning_sql id) c (λ _. unban_returning_sql-Valid id) v)

  insert_block-Valid :
      (a b : ℕ) (c : Conn) → Valid c.tables → Valid (insert_block env a b c).1.tables
  unfolding insert_block
  insert_block-Valid a b c v = elim (Bool-cases (a ==ℕ b)) [
    | inl self ↦ rw self v
    | inr pair ↦ rw pair (statement-Valid (insert_blocks_sql a b) c (insert_blocks_sql-Valid a b) v)
  ]

  pub perform-Valid : (x : Call) (c : Conn) → Valid c.tables → Valid (perform x c).tables
  unfolding upsert_user
  perform-Valid (upserts sub) c v = statement-Valid (upsert_sql sub) c (upsert_sql-Valid sub) v
  perform-Valid (reports a b reason url key) c v = record_report-Valid a b reason url key c v
  perform-Valid (bans id) c v = ban_user-Valid id c v
  perform-Valid (unbans id) c v = unban_user-Valid id c v
  perform-Valid (blocks_pair a b) c v = insert_block-Valid a b c v

  -- Any calls, in any order and whichever of their statements fail, keep the tables valid: blocks
  -- are symmetric and never of a user with himself, the counter of each user is the number of
  -- reports against the user, and ids and google_subs are unique and below the next id.
  pub perform_all-Valid :
      (xs : List Call) (c : Conn) → Valid c.tables → Valid (perform_all xs c).tables
  unfolding perform_all
  perform_all-Valid [] c v = v
  perform_all-Valid (x ∷ xs) c v = perform_all-Valid xs (perform x c) (perform-Valid x c v)
