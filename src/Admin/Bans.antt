-- ===== src/Admin/Bans.antt =====
-- A ban on the dashboard (`adminUserAction` of backend/admin.go) and the user's next connection.
use banana_talk.Prelude.{
  ℕ, ℤ, pos, negsuc, String, ◌≡◌, ◌≢◌, refl, sym, ap, subst, ◌∙◌, inl, inr, Bool, true, false, ◌&&◌,
  Option, some, List, [], ◌∷◌, ◌==◌, if◌then◌else◌, has, Bool-cases, Option-cases,
}
use banana_talk.Redis.{Redis}
use banana_talk.Sql.{User, Environment, Conn, Result, ok, err, no_rows, failed}
use banana_talk.Db.Statements.{first_where, has_sub, is_set, upsert_sql, select_user_sql}
use banana_talk.Db.Rows.{Unique}
use banana_talk.Db.Bans.{is_user_banned-row}
use banana_talk.Db.Toggles.{ban_user-is_user_banned}
use banana_talk.Db.{ban_user, is_user_banned, upsert_user}
use banana_talk.Db.ReportRows.{Postgres}
use banana_talk.Strings.{trim_prefix, split_slash}
use banana_talk.Strconv.{Parsed, parsed, bad_syntax, out_of_range, parse_int}
use banana_talk.Http.{Request}
use banana_talk.Auth.{Payload}
use banana_talk.RateLimit.{Limits, Limiters, Origin}
use banana_talk.Backend.{Backend}
use banana_talk.Connection.Admitted.{handle_connections-Cleared}
use banana_talk.Connection.{Moment, opened, handle_connections}
use banana_talk.Admin.{
  AdminRequest, Answer, ban_state, disconnect_client, ban_with, banned, unbanned, act, act_on,
  admin_user_action,
}

bool_inj : {x y : Bool} → ok x ≡ ok y → x ≡ y
bool_inj {x} e = ap (elim [ err d ↦ x | ok z ↦ z ]) e

bool_ne : {x : Bool} → err failed ≡ ok x → ⊥
bool_ne e = cc

pair_ne : {x : ℕ × Bool} → err failed ≡ ok x → ⊥
pair_ne e = cc

abbrev is_ban : Answer → Bool
is_ban (ban_state id on changed) = on
is_ban _ = false

module _ (env : Environment) where
  banned_row :
      (sub : String) (c : Conn)
      → env.fails c.step ≡ false
      → (is_user_banned env sub c).0 ≡ ok true
      → (u : User) × (first_where (has_sub sub) c.tables.users ≡ some u)
        × (is_set u.banned_at ≡ true)
  unfolding is_user_banned select_user_sql
  banned_row sub c up h = elim (Option-cases (first_where (has_sub sub) c.tables.users)) [
    | inl absent ↦ absurd (cc (rw absent at (rw up at h)))
    | inr (u, row) ↦ (u, row, bool_inj (sym (is_user_banned-row env sub c up row) ∙ h))
  ]

  unbanned_row :
      (sub : String) (c : Conn) {c' : Conn} {u : User}
      → is_user_banned env sub c ≡ (ok false, c')
      → first_where (has_sub sub) c.tables.users ≡ some u
      → is_set u.banned_at ≡ false
  unfolding is_user_banned select_user_sql
  unbanned_row sub c {c'} {u} h row = elim (Bool-cases (env.fails c.step)) [
    | inl down ↦ absurd (bool_ne (ap (λ p. p.0) (rw down at h)))
    | inr up ↦ bool_inj (sym (is_user_banned-row env sub c up row) ∙ ap (λ p. p.0) h)
  ]

  upsert_user-up :
      (sub : String) (c : Conn) {x : ℕ × Bool} {c' : Conn}
      → upsert_user env sub c ≡ (ok x, c')
      → env.fails c.step ≡ false
  unfolding upsert_user
  upsert_user-up sub c h = elim (Bool-cases (env.fails c.step)) [
    | inl down ↦ absurd (pair_ne (ap (λ p. p.0) (rw down at h)))
    | inr up ↦ up
  ]

  upsert_user-row :
      (sub : String) (c : Conn) {x : ℕ × Bool} {c' : Conn} {u : User}
      → env.fails c.step ≡ false
      → upsert_user env sub c ≡ (ok x, c')
      → first_where (has_sub sub) c.tables.users ≡ some u
      → first_where (has_sub sub) c'.tables.users ≡ some u
  unfolding upsert_user upsert_sql
  upsert_user-row sub c up h row =
      let k = rw (row, upsert_sql) at (rw up at h) in
      ap (λ p. first_where (has_sub sub) p.1.tables.users) (sym k) ∙ row

  -- A user who is banned cannot connect.
  module _ {r : Redis} (at : Moment) {interval burst : ℕ} (l : Limits interval burst)
      (trust_xff : Bool) (validate : String → Option Payload) (draining : Bool) where
    opened-unbanned :
        (sub : String) (req : Request) (from : Origin) (b : Backend r) (m : Limiters l) {v : String}
        {b' : Backend r} {m' : Limiters l}
        → (env.fails b.conn.step ≡ false → (is_user_banned env sub b.conn).0 ≡ ok true)
        → handle_connections r env at l trust_xff validate draining req from b m
          ≡ (opened v, b', m')
        → v ≢ sub
    opened-unbanned sub req from b m {v} {b'} told h same =
        let (_, _, _, clear) =
          handle_connections-Cleared r env at l trust_xff validate draining req from b m h in
        let up = upsert_user-up v b.conn clear.upserted in
        let (u, row, set) = banned_row sub b.conn up (told up) in
        let own : first_where (has_sub v) b.conn.tables.users ≡ some u = rw same row in
        let kept = upsert_user-row v b.conn up clear.upserted own in
        absurd (cc (set, unbanned_row v clear.known clear.unbanned kept))

abbrev ban_id : Answer → ℕ
ban_id (ban_state (pos id) on changed) = id
ban_id _ = 0

abbrev is_positive : Answer → Bool
is_positive (ban_state (pos id) on changed) = true
is_positive _ = false

abbrev ban_changed : Answer → Bool
ban_changed (ban_state id on changed) = changed
ban_changed _ = false

module _ (d : Postgres) (sign : String → ℕ → Option String) {r : Redis} (env : Environment) where
  -- What a ban has done: `sub` is the user's google_sub.
  pub record Banned (id : ℕ) (changed : Bool) (sub : String) (b b' : Backend r) : Type 0 where
    pub stored : ban_user env id b.conn ≡ (ok (sub, changed), b'.conn)
    pub clients : b'.clients ≡ b.clients
    pub closed : b'.closed ≡ (if changed && has b.clients sub then sub ∷ b.closed else b.closed)
    pub store : b'.store ≡ b.store

  disconnect_client-Banned :
      (id : ℕ) (changed : Bool) (sub : String) (b : Backend r) (c : Conn)
      → ban_user env id b.conn ≡ (ok (sub, changed), c)
      → let b1 : Backend r = record b { conn = c } in
        Banned id changed sub b (if changed then disconnect_client sub b1 else b1)
  unfolding disconnect_client
  disconnect_client-Banned id false sub b c k = record {
    stored = k;
    clients = refl;
    closed = refl;
    store = refl;
  }
  disconnect_client-Banned id true sub b c k = elim (Bool-cases (has b.clients sub)) [
    | inl open_now ↦
        rw open_now (record { stored = k; clients = refl; closed = rw open_now refl; store = refl })
    | inr away ↦
        rw away (record { stored = k; clients = refl; closed = rw away refl; store = refl })
  ]

  banned-Banned :
      (n : ℕ) (b : Backend r) (x : Result (String × Bool)) (c : Conn) {id : ℕ} {changed : Bool}
      {b' : Backend r}
      → ban_user env n b.conn ≡ (x, c)
      → banned d sign env (pos n) b (x, c) ≡ (ban_state (pos id) true changed, b')
      → (sub : String) × Banned id changed sub b b'
  unfolding banned
  banned-Banned n b (err no_rows) c k h = absurd (cc (ap (λ p. is_ban p.0) h))
  banned-Banned n b (err failed) c k h = absurd (cc (ap (λ p. is_ban p.0) h))
  banned-Banned n b (ok (sub, changed)) c {id} {changed = said} {b'} k h =
      let b1 : Backend r = record b { conn = c } in
      let left = if changed then disconnect_client sub b1 else b1 in
      (
        sub,
        subst (λ z. Banned id said sub b z) (ap (λ p. p.1) h)
            (subst (λ q. Banned (ban_id q) (ban_changed q) sub b left) (ap (λ p. p.0) h)
              (disconnect_client-Banned n changed sub b c k)),
      )

  -- No ban comes from a negative id.
  banned-negative :
      (n : ℕ) (b : Backend r) (x : Result (String × Bool)) (c : Conn) {id : ℕ} {changed : Bool}
      {b' : Backend r}
      → banned d sign env (negsuc n) b (x, c) ≡ (ban_state (pos id) true changed, b')
      → ⊥
  unfolding banned
  banned-negative n b (err no_rows) c h = cc (ap (λ p. is_ban p.0) h)
  banned-negative n b (err failed) c h = cc (ap (λ p. is_ban p.0) h)
  banned-negative n b (ok (sub, changed)) c h = cc (ap (λ p. is_positive p.0) h)

  unbanned-other :
      (z : ℤ) (b : Backend r) (x : Result (String × Bool)) (c : Conn) {id : ℕ} {changed : Bool}
      {b' : Backend r}
      → unbanned d sign env z b (x, c) ≡ (ban_state (pos id) true changed, b')
      → ⊥
  unfolding unbanned
  unbanned-other z b (err no_rows) c h = cc (ap (λ p. is_ban p.0) h)
  unbanned-other z b (err failed) c h = cc (ap (λ p. is_ban p.0) h)
  unbanned-other z b (ok (sub, changed)) c h = cc (ap (λ p. is_ban p.0) h)

  act-Banned :
      (action : String) (b : Backend r) (x : Parsed) {id : ℕ} {changed : Bool} {b' : Backend r}
      → act d sign env action b x ≡ (ban_state (pos id) true changed, b')
      → (sub : String) × Banned id changed sub b b'
  unfolding act ban_with
  act-Banned action b bad_syntax h = absurd (cc (ap (λ p. is_ban p.0) h))
  act-Banned action b (out_of_range z) h = absurd (cc (ap (λ p. is_ban p.0) h))
  act-Banned action b (parsed z) h = elim (Bool-cases (action == "ban")) [
    | inl ban ↦ with_id z (rw ban at h)
    | inr other ↦ elim (Bool-cases (action == "unban")) [
      | inl unban ↦ absurd (unbanned-other z b _ _ (rw (other, unban) at h))
      | inr unknown ↦ absurd (cc (ap (λ p. is_ban p.0) (rw (other, unknown) at h)))
    ]
  ]
    where
      with_id :
          (z : ℤ) {id : ℕ} {changed : Bool} {b' : Backend r}
          → banned d sign env z b (ban_with env z b.conn) ≡ (ban_state (pos id) true changed, b')
          → (sub : String) × Banned id changed sub b b'
      with_id (pos n) k = banned-Banned n b _ _ refl k
      with_id (negsuc n) k = absurd (banned-negative n b _ _ k)

  act_on-Banned :
      (b : Backend r) (parts : List String) {id : ℕ} {changed : Bool} {b' : Backend r}
      → act_on d sign env b parts ≡ (ban_state (pos id) true changed, b')
      → (sub : String) × Banned id changed sub b b'
  unfolding act_on
  act_on-Banned b [] h = absurd (cc (ap (λ p. is_ban p.0) h))
  act_on-Banned b (x ∷ []) h = absurd (cc (ap (λ p. is_ban p.0) h))
  act_on-Banned b (x ∷ action ∷ []) h = act-Banned action b (parse_int x) h
  act_on-Banned b (x ∷ y ∷ z ∷ rest) h = absurd (cc (ap (λ p. is_ban p.0) h))

  -- When a POST to /admin/api/users/{id}/ban is answered with the user's id and `banned`, on tables
  -- with unique ids and google_subs: the connection of that user, if the ban is new and the user has
  -- an entry in the table of clients, has been closed; the table of clients and Redis are as before;
  -- and a request to /ws that comes next, from wherever and with whatever token, does not open a
  -- connection of that user, whichever statements fail.
  pub admin_user_action-Banned :
      (req : AdminRequest) (b : Backend r) {id : ℕ} {changed : Bool} {b' : Backend r} (at : Moment)
      {interval burst : ℕ} (l : Limits interval burst) (trust_xff : Bool)
      (validate : String → Option Payload) (draining : Bool) (next : Request) (from : Origin)
      (m : Limiters l)
      → Unique b.conn.tables.users
      → admin_user_action d sign env req b ≡ (ban_state (pos id) true changed, b')
      → (sub : String) × Banned id changed sub b b'
        × ((handle_connections r env at l trust_xff validate draining next from b' m).0
            ≢ opened sub)
  unfolding admin_user_action
  admin_user_action-Banned req b {id} {changed} {b'} at l trust_xff validate draining next from m
        unique h =
      elim (Bool-cases (req.method == "POST")) [
        | inr other ↦ absurd (cc (ap (λ p. is_ban p.0) (rw other at h)))
        | inl post ↦
            let (sub, done) =
              act_on-Banned b (split_slash (trim_prefix req.path "/admin/api/users/"))
                (rw post at h) in
            let (outcome, b'', m') =
              handle_connections r env at l trust_xff validate draining next from b' m in
            (
              sub,
              done,
              λ opens.
                  opened-unbanned env at l trust_xff validate draining sub next from b' m
                    (ban_user-is_user_banned env id b.conn unique done.stored).1
                    (ap (λ o. (o, b'', m')) opens) refl,
            )
      ]
