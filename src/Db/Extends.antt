-- ===== src/Db/Extends.antt =====
-- The calls of backend/db.go lose no user, change no id and remove no block.
use banana_talk.Prelude.{
  ℕ, String, ◌≡◌, refl, ap, ◌∙◌, inl, inr, Bool, true, not, ◌&&◌, Option, none, some, List, [], ◌∷◌,
  ◌==◌, eq_iff, ◌==ℕ◌, Bool-cases, Option-cases, arith,
}
use banana_talk.Sql.{User, Block, Tables, Environment, Conn, Result, ok, err, statement}
use banana_talk.Db.Statements.{
  has_sub, has_id, one_more, has_block, first_where, update_where, are_users, insert_block_row,
  upsert_sql, insert_blocks_sql, ban_returning_sql, unban_returning_sql,
}
use banana_talk.Db.Rows.{has_block-insert}
use banana_talk.Db.Reports.{filed, Decided, record_report-Recorded, record_report-atomic}
use banana_talk.Db.Lookups.{row_of}
use banana_talk.Db.Calls.{settle-tables, Call, upserts, reports, bans, unbans, blocks_pair, perform}
use banana_talk.Db.{upsert_user, record_report, ban_user, unban_user, insert_block}

abbrev pub id_of : Option User → Option ℕ
id_of none = none
id_of (some u) = some u.id

-- Each user keeps the row and its id, and each block stays.
pub record Extends (s t : Tables) : Type 0 where
  pub ids : (sub : String) (i : ℕ) → id_of (row_of sub s) ≡ some i → id_of (row_of sub t) ≡ some i
  pub blocks : (i j : ℕ) → has_block s.blocks i j ≡ true → has_block t.blocks i j ≡ true

pub Extends-refl : (t : Tables) → Extends t t
Extends-refl t = record { ids = λ sub i e. e; blocks = λ i j e. e }

pub Extends-trans : {s t u : Tables} → Extends s t → Extends t u → Extends s u
Extends-trans f g = record {
  ids = λ sub i e. g.ids sub i (f.ids sub i e);
  blocks = λ i j e. g.blocks i j (f.blocks i j e);
}

pub Extends-rows : {s t : Tables} → t.users ≡ s.users → t.blocks ≡ s.blocks → Extends s t
Extends-rows eu eb = record { ids = λ sub i e. rw eu e; blocks = λ i j e. rw eb e }

-- An update that leaves ids and google_subs alone.
update_where-id_of :
    (sub : String) (p : User → Bool) (f : User → User) (us : List User)
    → ((u : User) → (f u).id ≡ u.id)
    → ((u : User) → (f u).google_sub ≡ u.google_sub)
    → id_of (first_where (has_sub sub) (update_where p f us)) ≡ id_of (first_where (has_sub sub) us)
update_where-id_of sub p f [] same_id same_sub = refl
update_where-id_of sub p f (u ∷ us) same_id same_sub =
    let rest = update_where-id_of sub p f us same_id same_sub in
    elim (Bool-cases (p u)) [
      | inl hit ↦
          rw (hit, same_sub u)
            (elim (Bool-cases (has_sub sub u)) [
              | inl named ↦ rw named (ap some (same_id u))
              | inr other ↦ rw other rest
            ])
      | inr miss ↦ rw miss (elim (Bool-cases (has_sub sub u)) [
        | inl named ↦ rw named refl
        | inr other ↦ rw other rest
      ])
    ]

Extends-updated :
    (p : User → Bool) (f : User → User) (t : Tables)
    → ((u : User) → (f u).id ≡ u.id)
    → ((u : User) → (f u).google_sub ≡ u.google_sub)
    → Extends t (record t { users = update_where p f t.users })
Extends-updated p f t same_id same_sub = record {
  ids = λ sub i e. update_where-id_of sub p f t.users same_id same_sub ∙ e;
  blocks = λ i j e. e;
}

insert_block_row-keeps :
    (a b now i j : ℕ) (rows : List Block)
    → has_block rows i j ≡ true
    → has_block (insert_block_row a b now rows) i j ≡ true
insert_block_row-keeps a b now i j rows h = rw (has_block-insert a b now i j rows) (rw h refl)

Extends-blocked :
    (a b now : ℕ) (t : Tables)
    → Extends t (record t { blocks = insert_block_row b a now (insert_block_row a b now t.blocks) })
Extends-blocked a b now t = record {
  ids = λ sub i e. e;
  blocks = λ i j e.
      insert_block_row-keeps b a now i j (insert_block_row a b now t.blocks)
        (insert_block_row-keeps a b now i j t.blocks e);
}

upsert_sql-Extends : (sub : String) (now : ℕ) (t : Tables) → Extends t (upsert_sql sub now t).1
unfolding upsert_sql
upsert_sql-Extends sub now t = elim (Option-cases (row_of sub t)) [
  | inr (u, found) ↦ rw (found, upsert_sql) (Extends-rows refl refl)
  | inl fresh ↦
      rw (fresh, upsert_sql)
        (record {
          ids = λ other i e. elim (Bool-cases (sub == other)) [
            | inl same ↦ absurd (ground (arith, (eq_iff sub other).0 same, fresh, e))
            | inr new ↦ rw new e
          ];
          blocks = λ i j e. e;
        })
]

insert_blocks_sql-Extends : (a b now : ℕ) (t : Tables) → Extends t (insert_blocks_sql a b now t).1
unfolding insert_blocks_sql
insert_blocks_sql-Extends a b now t = elim (Bool-cases (not (a ==ℕ b) && are_users a b t)) [
  | inl fits ↦ rw fits (Extends-blocked a b now t)
  | inr unfit ↦ rw unfit (Extends-refl t)
]

Extends-filed :
    (a b : ℕ) (reason url key : String) (now : ℕ) (t : Tables)
    → Extends t (filed a b reason url key now t)
Extends-filed a b reason url key now t =
    let bumped = Extends-updated (has_id b) one_more t (λ u. refl) (λ u. refl) in
    record { ids = bumped.ids; blocks = (Extends-blocked a b now t).blocks }

Decided-Extends :
    (b now since : ℕ) (t t' : Tables) (banned : Bool)
    → Decided b now since t banned t'
    → Extends t t'
Decided-Extends b now since t t' banned (inl (over, hit, e)) =
    rw e (Extends-updated _ _ t (λ u. refl) (λ u. refl))
Decided-Extends b now since t t' banned (inr (under, hit, e)) = rw e (Extends-refl t)

module _ (env : Environment) where
  statement-Extends :
      {A : Type 0} (body : ℕ → Tables → Result A × Tables) (c : Conn)
      → ((now : ℕ) (t : Tables) → Extends t (body now t).1)
      → Extends c.tables (statement env body c).1.tables
  statement-Extends body c keep = elim (Bool-cases (env.fails c.step)) [
    | inl bad ↦ rw bad (Extends-refl c.tables)
    | inr good ↦ rw good (keep (env.now c.step) c.tables)
  ]

  record_report-Extends :
      (a b : ℕ) (reason url key : String) (c : Conn)
      → Extends c.tables (record_report env a b reason url key c).1.tables
  record_report-Extends a b reason url key c =
      let (x, c') = record_report env a b reason url key c in cases x c' refl
    where
      cases :
          (x : Result Bool) (c' : Conn)
          → record_report env a b reason url key c ≡ (x, c')
          → Extends c.tables c'.tables
      cases (ok banned) c' e =
          let p = record_report-Recorded env a b reason url key c e in
          Extends-trans (Extends-filed a b reason url key (env.now c.step) c.tables)
            (Decided-Extends b _ _ _ c'.tables banned p.decided)
      cases (err d) c' e =
          let ((users, _, blocks), _) = record_report-atomic env a b reason url key c e in
          Extends-rows users blocks

  ban_user-Extends : (id : ℕ) (c : Conn) → Extends c.tables (ban_user env id c).1.tables
  unfolding ban_user ban_returning_sql
  ban_user-Extends id c =
      let (x, c1) = statement env (ban_returning_sql id) c in
      rw (settle-tables env id x c1) (
        statement-Extends (ban_returning_sql id) c
          (λ now t. Extends-updated _ _ t (λ u. refl) (λ u. refl)))

  unban_user-Extends : (id : ℕ) (c : Conn) → Extends c.tables (unban_user env id c).1.tables
  unfolding unban_user unban_returning_sql
  unban_user-Extends id c =
      let (x, c1) = statement env (λ _. unban_returning_sql id) c in
      rw (settle-tables env id x c1) (
        statement-Extends (λ _. unban_returning_sql id) c
          (λ now t. Extends-updated _ _ t (λ u. refl) (λ u. refl)))

  insert_block-Extends : (a b : ℕ) (c : Conn) → Extends c.tables (insert_block env a b c).1.tables
  unfolding insert_block
  insert_block-Extends a b c = elim (Bool-cases (a ==ℕ b)) [
    | inl self ↦ rw self (Extends-refl c.tables)
    | inr pair ↦
        rw pair (statement-Extends (insert_blocks_sql a b) c (insert_blocks_sql-Extends a b))
  ]

  pub perform-Extends : (x : Call) (c : Conn) → Extends c.tables (perform env x c).tables
  unfolding upsert_user
  perform-Extends (upserts sub) c = statement-Extends (upsert_sql sub) c (upsert_sql-Extends sub)
  perform-Extends (reports a b reason url key) c = record_report-Extends a b reason url key c
  perform-Extends (bans id) c = ban_user-Extends id c
  perform-Extends (unbans id) c = unban_user-Extends id c
  perform-Extends (blocks_pair a b) c = insert_block-Extends a b c
