-- ===== src/Db/Toggles.antt =====
-- `banUser` and `unbanUser` against `isUserBanned` (backend/db.go).
use banana_talk.Prelude.{
  ℕ, String, ◌≡◌, refl, sym, ap, subst, ◌∙◌, Bool, true, false, not, ◌&&◌, Option, none, some,
  if◌then◌else◌, arith,
}
use banana_talk.Sql.{
  User, Tables, Environment, Conn, Result, ok, err, no_rows, failed, statement, pure,
}
use banana_talk.Sql.Laws.{statement-ok, bind-ok}
use banana_talk.Db.Statements.{
  first_where, update_where, has_sub, has_id, is_set, is_free, is_barred, with_ban, sub_of,
  select_sub_sql, ban_returning_sql, unban_returning_sql,
}
use banana_talk.Db.Rows.{Unique}
use banana_talk.Db.Listing.{first_where-holds, All-Unit}
use banana_talk.Db.Bans.{
  updated_row, update_where-none, missed, sub_of-some, sub_of-none, statement-no_rows,
  statement-sent, is_user_banned-row,
}
use banana_talk.Db.{is_user_banned, ban_user, unban_user, settle, look_up_sub}

pair_inj : {x y : String × Bool} → ok x ≡ ok y → x ≡ y
pair_inj {x} e = ap (elim [ err d ↦ x | ok z ↦ z ]) e

failed_ne : {x : String × Bool} → err failed ≡ ok x → ⊥
failed_ne e = cc

chosen_side : (h w b : Bool) → (h && (if w then not b else b)) ≡ true → b ≡ not w
chosen_side h true b e = ground (arith, e)
chosen_side h false b e = ground (arith, e)

other_side : (h w b : Bool) → h ≡ true → (h && (if w then not b else b)) ≡ false → b ≡ w
other_side h true b k e = ground (arith, k, e)
other_side h false b k e = ground (arith, k, e)

if_not : (b : Bool) → (if b then not true else true) ≡ not b
if_not true = refl
if_not false = refl

if_same : (b : Bool) → (if b then not false else false) ≡ b
if_same true = refl
if_same false = refl

module _ (env : Environment) (id : ℕ) (w : Bool) (p : User → Bool) (at : ℕ → Option ℕ)
    (sets : (n : ℕ) → is_set (at n) ≡ w)
    (picks : (u : User)
      → p u ≡ (has_id id u && (if w then not (is_set u.banned_at) else is_set u.banned_at))) where
  -- The UPDATE of the rows with `p`.
  abbrev change : ℕ → Tables → Result String × Tables
  change now t = (
    sub_of (first_where p t.users),
    record t { users = update_where p (with_ban (at now)) t.users },
  )

  -- `changed` says whether the user was on the other side before; afterwards the user is on side `w`.
  abbrev Toggled : String → Bool → Conn → Conn → Type 0
  Toggled sub changed c c' =
      ((is_user_banned env sub c).0 ≡ ok (if changed then not w else w))
      × (env.fails c'.step ≡ false → (is_user_banned env sub c').0 ≡ ok w)

  hit-Toggled :
      (c : Conn) {s : String} {c1 : Conn}
      → Unique c.tables.users
      → statement env change c ≡ (ok s, c1)
      → Toggled s true c c1
  hit-Toggled c {s} {c1} unique h =
      let (did, next) = statement-ok env change c h in
      let us = c.tables.users in
      let (u, hit, name) = sub_of-some (first_where p us) (ap (λ q. q.0) did) in
      let chosen = (first_where-holds p (λ x. Unit {0}) us hit (All-Unit us)).0 in
      let (before, later) = updated_row p (at (env.now c.step)) us unique hit in
      rw (← name) (
        is_user_banned-row env u.google_sub c (statement-sent env change c h) before
            ∙ ap ok (chosen_side (has_id id u) w (is_set u.banned_at) (sym (picks u) ∙ chosen)),
        λ up.
            is_user_banned-row env u.google_sub c1 {u = with_ban (at (env.now c.step)) u} up
              (ap (λ q. first_where (has_sub u.google_sub) q.1.users) (sym did) ∙ later)
            ∙ ap ok (sets (env.now c.step)),
      )

  miss-Toggled :
      (c : Conn) {s : String} {changed : Bool} {c1 c' : Conn}
      → Unique c.tables.users
      → statement env change c ≡ (err no_rows, c1)
      → look_up_sub env id c1 ≡ (ok (s, changed), c')
      → Toggled s changed c c'
  unfolding look_up_sub select_sub_sql
  miss-Toggled c {s} {changed} {c1} {c'} unique h k =
      let (up, did) = statement-no_rows env change c h in
      let us = c.tables.users in
      let absent = sub_of-none (first_where p us) (ap (λ q. q.0) did) in
      let (sub, c2, e, rest) =
        bind-ok (statement env (λ _. select_sub_sql id)) (λ sub. pure (sub, false)) c1 k in
      let (found, next) = statement-ok env (λ _. select_sub_sql id) c1 e in
      let same =
        ap (λ q. q.1.users) (sym did)
        ∙ update_where-none p (with_ban (at (env.now c.step))) us absent in
      let (u, row, name) =
        sub_of-some (first_where (has_id id) us)
          (ap (λ vs. sub_of (first_where (has_id id) vs)) (sym same) ∙ ap (λ q. q.0) found) in
      let own = (first_where-holds (has_id id) (λ x. Unit {0}) us row (All-Unit us)).0 in
      let side =
        other_side (has_id id u) w (is_set u.banned_at) own
          (sym (picks u) ∙ missed p (has_id id) us absent row) in
      let now_row = (updated_row (has_id id) none us unique row).0 in
      let answer = pair_inj (ap (λ q. q.0) rest) in
      let last = ap (λ q. q.1.tables.users) (sym rest) ∙ ap (λ q. q.1.users) (sym found) ∙ same in
      rw (← ap (λ q. q.1) answer, ← ap (λ q. q.0) answer, ← name)
        (
          is_user_banned-row env u.google_sub c up now_row ∙ ap ok side,
          λ up'.
              is_user_banned-row env u.google_sub c' {u = u} up'
                (ap (first_where (has_sub u.google_sub)) last ∙ now_row)
              ∙ ap ok side,
        )

  settle-Toggled :
      (c : Conn) {sub : String} {changed : Bool} (x : Result String) (c1 : Conn) {c' : Conn}
      → Unique c.tables.users
      → statement env change c ≡ (x, c1)
      → settle env id x c1 ≡ (ok (sub, changed), c')
      → Toggled sub changed c c'
  unfolding settle
  settle-Toggled c {sub} {changed} (ok s) c1 {c'} unique h k =
      let answer = pair_inj (ap (λ q. q.0) k) in
      subst (λ d. Toggled sub changed c d) (ap (λ q. q.1) k)
        (subst (λ a. Toggled a.0 a.1 c c1) answer (hit-Toggled c unique h))
  settle-Toggled c (err no_rows) c1 unique h k = miss-Toggled c unique h k
  settle-Toggled c (err failed) c1 unique h k = absurd (failed_ne (ap (λ q. q.0) k))

module _ (env : Environment) (id : ℕ) (c : Conn) {sub : String} {changed : Bool} {c' : Conn} where
  -- On tables with unique ids and google_subs, a banUser that returns has answered with the
  -- google_sub of a user who is banned afterwards, and with whether the user was not banned before,
  -- as isUserBanned tells it while its statement does not fail.
  pub ban_user-is_user_banned :
      Unique c.tables.users
      → ban_user env id c ≡ (ok (sub, changed), c')
      → ((is_user_banned env sub c).0 ≡ ok (not changed))
        × (env.fails c'.step ≡ false → (is_user_banned env sub c').0 ≡ ok true)
  unfolding ban_user ban_returning_sql
  ban_user-is_user_banned unique h =
      let (x, c1) = statement env (ban_returning_sql id) c in
      let (before, later) =
        settle-Toggled env id true (is_free id) some (λ n. refl) (λ u. refl) c x c1 unique refl h in
      (before ∙ ap ok (if_not changed), later)

  -- On tables with unique ids and google_subs, an unbanUser that returns has answered with the
  -- google_sub of a user who is not banned afterwards, and with whether the user was banned before,
  -- as isUserBanned tells it while its statement does not fail.
  pub unban_user-is_user_banned :
      Unique c.tables.users
      → unban_user env id c ≡ (ok (sub, changed), c')
      → ((is_user_banned env sub c).0 ≡ ok changed)
        × (env.fails c'.step ≡ false → (is_user_banned env sub c').0 ≡ ok false)
  unfolding unban_user unban_returning_sql
  unban_user-is_user_banned unique h =
      let (x, c1) = statement env (λ _. unban_returning_sql id) c in
      let (before, later) =
        settle-Toggled env id false (is_barred id) (λ n. none) (λ n. refl) (λ u. refl) c x c1 unique
          refl h in
      (before ∙ ap ok (if_same changed), later)
