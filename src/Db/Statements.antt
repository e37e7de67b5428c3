-- ===== src/Db/Statements.antt =====
-- The SQL texts of backend/db.go as functions on the tables: what each returns, the rows that it
-- leaves, and the constraints of `schema` that make it fail.
use banana_talk.Prelude.{
  ℕ, ◌+◌, String, Bool, true, false, not, ◌&&◌, Option, none, some, List, [], ◌∷◌, ◌==◌, ◌==ℕ◌, leb,
  if◌then◌else◌, length, any, keep_if,
}
use banana_talk.Sql.{User, Report, Block, Tables, no_rows, failed, Result, ok, err}

-- SELECT ... WHERE, of at most one row.
abbrev pub first_where : (User → Bool) → List User → Option User
first_where p [] = none
first_where p (u ∷ us) = if p u then some u else first_where p us

-- UPDATE users SET ... WHERE ...
abbrev pub update_where : (User → Bool) → (User → User) → List User → List User
update_where p f [] = []
update_where p f (u ∷ us) = (if p u then f u else u) ∷ update_where p f us

-- `Scan` of the row that a query gives; no row is pgx.ErrNoRows.
abbrev pub one_row {ℓ} : {A : Type ℓ} → Option A → Result A
one_row none = err no_rows
one_row (some a) = ok a

abbrev pub has_sub : String → User → Bool
has_sub sub u = u.google_sub == sub

abbrev pub has_id : ℕ → User → Bool
has_id id u = u.id ==ℕ id

abbrev pub is_set : Option ℕ → Bool
is_set none = false
is_set (some t) = true

-- WHERE id = $1 AND banned_at IS NULL
abbrev pub is_free : ℕ → User → Bool
is_free id u = has_id id u && not (is_set u.banned_at)

-- WHERE id = $1 AND banned_at IS NOT NULL
abbrev pub is_barred : ℕ → User → Bool
is_barred id u = has_id id u && is_set u.banned_at

abbrev pub has_block : List Block → ℕ → ℕ → Bool
has_block rows a b = any (λ r. (r.blocker_id ==ℕ a) && (r.blocked_id ==ℕ b)) rows

abbrev pub new_user : ℕ → String → ℕ → User
new_user id sub now = record {
  id = id;
  google_sub = sub;
  created_at = now;
  banned_at = none;
  reports_received_count = 0;
}

-- INSERT INTO users ... ON CONFLICT ... RETURNING id, (xmax = 0). A conflict too takes a value from
-- the sequence.
unfoldable pub upsert_sql : String → ℕ → Tables → Result (ℕ × Bool) × Tables
upsert_sql sub now t = elim (first_where (has_sub sub) t.users) [
  | some u ↦ (ok (u.id, false), record t { next_user_id = t.next_user_id + 1 })
  | none ↦ (
    ok (t.next_user_id, true),
    record t {
      users = new_user t.next_user_id sub now ∷ t.users;
      next_user_id = t.next_user_id + 1;
    },
  )
]

-- `REFERENCES users(id)`, of two columns.
abbrev pub are_users : ℕ → ℕ → Tables → Bool
are_users a b t = any (has_id a) t.users && any (has_id b) t.users

-- INSERT INTO reports; the arguments are those of the source, then the time and the tables.
unfoldable pub insert_report_sql :
    ℕ → ℕ → String → String → String → ℕ → Tables → Result (Unit {0}) × Tables
insert_report_sql reporter reported reason url key now t =
    if are_users reporter reported t
    then (ok tt, record t { reports = row ∷ t.reports; next_report_id = t.next_report_id + 1 })
    else (err failed, record t { next_report_id = t.next_report_id + 1 })
  where
    row : Report
    row = record {
      id = t.next_report_id;
      reporter_id = reporter;
      reported_id = reported;
      reason = reason;
      screenshot_url = url;
      screenshot_key = key;
      created_at = now;
    }

-- One row of an INSERT INTO blocks ... ON CONFLICT (blocker_id, blocked_id) DO NOTHING.
unfoldable pub insert_block_row : ℕ → ℕ → ℕ → List Block → List Block
insert_block_row a b now rows =
    if has_block rows a b
    then rows
    else record { blocker_id = a; blocked_id = b; created_at = now } ∷ rows

-- INSERT INTO blocks ... VALUES ($1, $2), ($2, $1), with `CHECK (blocker_id <> blocked_id)`.
unfoldable pub insert_blocks_sql : ℕ → ℕ → ℕ → Tables → Result (Unit {0}) × Tables
insert_blocks_sql a b now t =
    if not (a ==ℕ b) && are_users a b t
    then (ok tt, record t { blocks = insert_block_row b a now (insert_block_row a b now t.blocks) })
    else (err failed, t)

abbrev pub one_more : User → User
one_more u = record u { reports_received_count = u.reports_received_count + 1 }

abbrev pub with_ban : Option ℕ → User → User
with_ban at u = record u { banned_at = at }

-- SET reports_received_count = reports_received_count + 1 WHERE id = $1
unfoldable pub bump_sql : ℕ → Tables → Result (Unit {0}) × Tables
bump_sql id t = (ok tt, record t { users = update_where (has_id id) one_more t.users })

-- WHERE reported_id = $1 AND created_at >= $2
abbrev pub is_recent : ℕ → ℕ → Report → Bool
is_recent id since r = (r.reported_id ==ℕ id) && leb since r.created_at

unfoldable pub count_recent_sql : ℕ → ℕ → Tables → Result ℕ × Tables
count_recent_sql id since t = (ok (length (keep_if (is_recent id since) t.reports)), t)

-- SET banned_at = NOW() WHERE id = $1 AND banned_at IS NULL; whether a row was affected.
unfoldable pub ban_sql : ℕ → ℕ → Tables → Result Bool × Tables
ban_sql id now t = (
  ok (any (is_free id) t.users),
  record t { users = update_where (is_free id) (with_ban (some now)) t.users },
)

-- RETURNING google_sub, or SELECT google_sub.
abbrev pub sub_of : Option User → Result String
sub_of none = err no_rows
sub_of (some u) = ok u.google_sub

-- The same UPDATE with RETURNING google_sub.
unfoldable pub ban_returning_sql : ℕ → ℕ → Tables → Result String × Tables
ban_returning_sql id now t = (
  sub_of (first_where (is_free id) t.users),
  record t { users = update_where (is_free id) (with_ban (some now)) t.users },
)

-- SET banned_at = NULL WHERE id = $1 AND banned_at IS NOT NULL RETURNING google_sub
unfoldable pub unban_returning_sql : ℕ → Tables → Result String × Tables
unban_returning_sql id t = (
  sub_of (first_where (is_barred id) t.users),
  record t { users = update_where (is_barred id) (with_ban none) t.users },
)

-- SELECT google_sub FROM users WHERE id = $1
unfoldable pub select_sub_sql : ℕ → Tables → Result String × Tables
select_sub_sql id t = (sub_of (first_where (has_id id) t.users), t)

-- SELECT ... FROM users WHERE google_sub = $1
unfoldable pub select_user_sql : String → Tables → Result User × Tables
select_user_sql sub t = (one_row (first_where (has_sub sub) t.users), t)

-- The join: the google_sub of the user with this id, in front of the others.
abbrev pub join_sub : Option User → List String → List String
join_sub none subs = subs
join_sub (some u) subs = u.google_sub ∷ subs

abbrev pub blocked_subs : ℕ → List User → List Block → List String
blocked_subs id us [] = []
blocked_subs id us (r ∷ rs) =
    let others = blocked_subs id us rs in
    if r.blocker_id ==ℕ id then join_sub (first_where (has_id r.blocked_id) us) others else others

-- SELECT u.google_sub FROM blocks b JOIN users u ON u.id = b.blocked_id WHERE b.blocker_id = $1
unfoldable pub load_blocks_sql : ℕ → Tables → Result (List String) × Tables
load_blocks_sql id t = (ok (blocked_subs id t.users t.blocks), t)
