-- ===== src/Sql.antt =====
-- The PostgreSQL connection as backend/db.go uses it: statements that read and write the tables of
-- `schema`, transactions, and the errors that pgx returns. Statements run one after another. What
-- each SQL text does is translated in `Db`; the server itself is an `Environment`.
pub mod Laws
pub mod Advances
use banana_talk.Prelude.{ℕ, ◌+◌, String, Bool, Option, List, if◌then◌else◌}

-- A row of `users`.
pub record User : Type 0 where
  pub id : ℕ
  pub google_sub : String
  pub created_at : ℕ
  pub banned_at : Option ℕ
  pub reports_received_count : ℕ

-- A row of `reports`.
pub record Report : Type 0 where
  pub id : ℕ
  pub reporter_id : ℕ
  pub reported_id : ℕ
  pub reason : String
  pub screenshot_url : String
  pub screenshot_key : String
  pub created_at : ℕ

-- A row of `blocks`.
pub record Block : Type 0 where
  pub blocker_id : ℕ
  pub blocked_id : ℕ
  pub created_at : ℕ

-- The tables, newest row first, and the counters behind the two BIGSERIAL columns.
pub record Tables : Type 0 where
  pub users : List User
  pub reports : List Report
  pub blocks : List Block
  pub next_user_id : ℕ
  pub next_report_id : ℕ

-- `no_rows` is pgx.ErrNoRows; every other error is `failed`.
pub data DbError : Type 0 where
  no_rows failed : DbError

pub data Result {ℓ} (A : Type ℓ) : Type ℓ where
  ok : A → Result A
  err : DbError → Result A

-- Whether the statement with a given number fails for a reason of its own, such as a lost
-- connection or a timeout, and the time at which it starts, by both clocks: that of the server
-- (`NOW()`, which a transaction reads once) and that of the backend (`time.Now()`).
pub record Environment : Type 0 where
  pub fails : ℕ → Bool
  pub now : ℕ → ℕ
  pub local_now : ℕ → ℕ

-- `step` counts the statements sent so far.
pub record Conn : Type 0 where
  pub tables : Tables
  pub step : ℕ

abbrev pub Query {ℓ} : Type ℓ → Type ℓ
Query A = Conn → Result A × Conn

abbrev pub proceed {ℓ κ} :
    {A : Type ℓ} {B : Type κ} → Result A → (A → Query B) → Conn → Result B × Conn
proceed (ok a) f c = f a c
proceed (err e) f c = (err e, c)

infixl 5 ◌>>=◌ ◌>>◌
abbrev pub ◌>>=◌ {ℓ κ} : {A : Type ℓ} {B : Type κ} → Query A → (A → Query B) → Query B
◌>>=◌ m f c = let (x, c') = m c in proceed x f c'

abbrev pub ◌>>◌ {ℓ κ} : {A : Type ℓ} {B : Type κ} → Query A → Query B → Query B
m >> n = m >>= λ _. n

abbrev pub pure {ℓ} : {A : Type ℓ} → A → Query A
pure a c = (ok a, c)

abbrev pub raise {ℓ} : {A : Type ℓ} → DbError → Query A
raise e c = (err e, c)

-- The call's result as a value, for code that looks at the error.
abbrev pub attempt {ℓ} : {A : Type ℓ} → Query A → Query (Result A)
attempt m c = let (x, c') = m c in (ok x, c')

abbrev pub sent : Conn → Conn
sent c = record c { step = c.step + 1 }

module _ (env : Environment) where
  -- One statement. A statement that fails changes nothing.
  abbrev pub statement {ℓ} : {A : Type ℓ} → (ℕ → Tables → Result A × Tables) → Query A
  statement body c =
      if env.fails c.step
      then (err failed, sent c)
      else (let (x, t) = body (env.now c.step) c.tables in (x, record (sent c) { tables = t }))

  -- What a rollback leaves: the rows as they were; the counters are not set back.
  abbrev pub rolled_back : Tables → Conn → Conn
  rolled_back t c = record c {
    tables = record t {
      next_user_id = c.tables.next_user_id;
      next_report_id = c.tables.next_report_id;
    };
  }

  abbrev pub finish {ℓ} : {A : Type ℓ} → Tables → Result A × Conn → Result A × Conn
  finish t (err e, c) = (err e, rolled_back t c)
  finish t (ok a, c) =
      if env.fails c.step then (err failed, rolled_back t (sent c)) else (ok a, sent c)

  -- BEGIN, the statements of the body, and COMMIT; the body is given the time of the BEGIN. Any
  -- error on the way, that of the COMMIT too, rolls the transaction back.
  abbrev pub transaction {ℓ} : {A : Type ℓ} → (ℕ → Query A) → Query A
  transaction body c =
      if env.fails c.step
      then (err failed, sent c)
      else finish c.tables (body (env.now c.step) (sent c))
