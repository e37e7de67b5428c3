-- ===== src/Db/Grows.antt =====
-- What the queries of a handler do to the tables of backend/db.go: each keeps what holds of the
-- tables, and loses no user and no block.
use banana_talk.Prelude.{ℕ, String, ◌≡◌, refl, arith, inl, inr, Bool-cases, Option-cases}
use banana_talk.Sql.{
  Tables, Environment, Conn, Query, Result, ok, err, ◌>>=◌, proceed, pure, statement,
}
use banana_talk.Db.Statements.{select_user_sql, load_blocks_sql}
use banana_talk.Db.Invariant.{Valid}
use banana_talk.Db.References.{Referenced}
use banana_talk.Db.References.Kept.{perform-Referenced}
use banana_talk.Db.Calls.{Call, upserts, reports, bans, unbans, blocks_pair, perform, perform-Valid}
use banana_talk.Db.Lookups.{row_of, get_user_id_by_google_sub-tables}
use banana_talk.Db.Extends.{Extends, Extends-refl, Extends-trans, perform-Extends}
use banana_talk.Db.{
  upsert_user, get_user_id_by_google_sub, is_user_banned, record_report, ban_user, unban_user,
  insert_block, load_user_blocks,
}

pub record Grows (s t : Tables) : Type 0 where
  pub valid : Valid s → Valid t
  pub referenced : Referenced s → Referenced t
  pub extends : Extends s t

pub Grows-refl : (t : Tables) → Grows t t
Grows-refl t = record { valid = λ v. v; referenced = λ v. v; extends = Extends-refl t }

pub Grows-same : {s t : Tables} → t ≡ s → Grows s t
Grows-same {s} e = rw e (Grows-refl s)

pub Grows-trans : {s t u : Tables} → Grows s t → Grows t u → Grows s u
Grows-trans f g = record {
  valid = λ v. g.valid (f.valid v);
  referenced = λ v. g.referenced (f.referenced v);
  extends = Extends-trans f.extends g.extends;
}

-- Whatever the query returns.
abbrev pub GrowsTables {ℓ} : {A : Type ℓ} → Query A → Type 0
GrowsTables m = (c : Conn) → Grows c.tables (m c).1.tables

proceed-Grows {ℓ κ} :
    {A : Type ℓ} {B : Type κ} (x : Result A) (c1 : Conn) (f : A → Query B)
    → ((a : A) → GrowsTables (f a))
    → Grows c1.tables (proceed x f c1).1.tables
proceed-Grows (ok a) c1 f grows = grows a c1
proceed-Grows (err e) c1 f grows = Grows-refl c1.tables

pub Grows-then {ℓ κ} :
    {A : Type ℓ} {B : Type κ} (m : Query A) (f : A → Query B)
    → GrowsTables m
    → ((a : A) → GrowsTables (f a))
    → GrowsTables (m >>= f)
Grows-then m f first later c =
    let (x, c1) = m c in Grows-trans (first c) (proceed-Grows x c1 f later)

pub Grows-pure {ℓ} : {A : Type ℓ} (a : A) → GrowsTables (pure a)
Grows-pure a c = Grows-refl c.tables

module _ (env : Environment) where
  perform-Grows : (x : Call) (c : Conn) → Grows c.tables (perform env x c).tables
  perform-Grows x c = record {
    valid = perform-Valid env x c;
    referenced = perform-Referenced env x c;
    extends = perform-Extends env x c;
  }

  -- A statement that only reads.
  statement-Grows {ℓ} :
      {A : Type ℓ} (body : ℕ → Tables → Result A × Tables)
      → ((now : ℕ) (t : Tables) → (body now t).1 ≡ t)
      → GrowsTables (statement env body)
  statement-Grows body reads c = Grows-same (ground (arith, reads (env.now c.step) c.tables))

  pub upsert_user-Grows : (sub : String) → GrowsTables (upsert_user env sub)
  upsert_user-Grows sub c = perform-Grows (upserts sub) c

  pub record_report-Grows :
      (a b : ℕ) (reason url key : String) → GrowsTables (record_report env a b reason url key)
  record_report-Grows a b reason url key c = perform-Grows (reports a b reason url key) c

  pub ban_user-Grows : (id : ℕ) → GrowsTables (ban_user env id)
  ban_user-Grows id c = perform-Grows (bans id) c

  pub unban_user-Grows : (id : ℕ) → GrowsTables (unban_user env id)
  unban_user-Grows id c = perform-Grows (unbans id) c

  pub insert_block-Grows : (a b : ℕ) → GrowsTables (insert_block env a b)
  insert_block-Grows a b c = perform-Grows (blocks_pair a b) c

  pub get_user_id_by_google_sub-Grows :
      (sub : String) → GrowsTables (get_user_id_by_google_sub env sub)
  get_user_id_by_google_sub-Grows sub c = Grows-same (get_user_id_by_google_sub-tables env sub c)

  is_user_banned-tables : (sub : String) (c : Conn) → (is_user_banned env sub c).1.tables ≡ c.tables
  unfolding is_user_banned select_user_sql
  is_user_banned-tables sub c = elim (Bool-cases (env.fails c.step)) [
    | inl bad ↦ rw bad refl
    | inr good ↦ rw good (elim (Option-cases (row_of sub c.tables)) [
      | inl absent ↦ rw absent refl
      | inr (u, row) ↦ rw row refl
    ])
  ]

  pub is_user_banned-Grows : (sub : String) → GrowsTables (is_user_banned env sub)
  is_user_banned-Grows sub c = Grows-same (is_user_banned-tables sub c)

  pub load_user_blocks-Grows : (id : ℕ) → GrowsTables (load_user_blocks env id)
  unfolding load_user_blocks load_blocks_sql
  load_user_blocks-Grows id = statement-Grows (λ _. load_blocks_sql id) (λ now t. refl)
