-- ===== src/Admin/Kept.antt =====
-- The dashboard of backend/admin.go keeps the backend sound.
use text.Mathlib.Text.{starts_with}
use banana_talk.Prelude.{
  ℕ, ℤ, pos, negsuc, String, inl, inr, Bool, true, false, Option, none, some, List, [], ◌∷◌, ◌==◌,
  has, Bool-cases, arith,
}
use banana_talk.Redis.{Redis}
use banana_talk.Sql.{Environment, Conn, Result, ok, err, no_rows, failed, pure, attempt}
use banana_talk.Db.Grows.{
  Grows, Grows-refl, Grows-pure, Grows-then, GrowsTables, Grows-same, ban_user-Grows,
  unban_user-Grows,
}
use banana_talk.Db.ReportRows.{Postgres}
use banana_talk.Strings.{trim_prefix, split_slash}
use banana_talk.Strconv.{Parsed, parsed, bad_syntax, out_of_range, parse_int}
use banana_talk.Backend.Sound.{Sound-conn, IsSound}
use banana_talk.Backend.{Backend}
use banana_talk.Admin.Login.{Untouched, admin_list_reports-Untouched, admin_get_report-Untouched}
use banana_talk.Admin.{
  AdminRequest, no_user, look_again, nobody, ban_with, unban_with, disconnect_client, banned,
  unbanned, act, act_on, admin_user_action, admin_auth, route, serve_admin,
}

Untouched-IsSound :
    {G : String → String → Type 0} {r : Redis} {b b' : Backend r}
    → Untouched b b'
    → IsSound G b
    → IsSound G b'
Untouched-IsSound {r} u h = rw (u.tables, u.store) h

module _ (env : Environment) where
  no_user-Grows : GrowsTables (no_user env)
  unfolding no_user
  no_user-Grows = λ c. Grows-same (ground arith)

  look_again-Grows : (x : Result String) → GrowsTables (look_again env x)
  unfolding look_again
  look_again-Grows (ok sub) = Grows-pure {A = String × Bool} (sub, true)
  look_again-Grows (err no_rows) =
      Grows-then (no_user env) (λ sub. pure {A = String × Bool} (sub, false)) no_user-Grows
        (λ sub. Grows-pure {A = String × Bool} (sub, false))
  look_again-Grows (err failed) = λ c. Grows-refl c.tables

  nobody-Grows : GrowsTables (nobody env)
  unfolding nobody
  nobody-Grows = Grows-then (attempt (no_user env)) (look_again env) no_user-Grows look_again-Grows

  ban_with-Grows : (id : ℤ) → GrowsTables (ban_with env id)
  unfolding ban_with
  ban_with-Grows (pos id) = ban_user-Grows env id
  ban_with-Grows (negsuc n) = nobody-Grows

  unban_with-Grows : (id : ℤ) → GrowsTables (unban_with env id)
  unfolding unban_with
  unban_with-Grows (pos id) = unban_user-Grows env id
  unban_with-Grows (negsuc n) = nobody-Grows

disconnect_client-IsSound :
    {G : String → String → Type 0} {r : Redis} (sub : String) (b : Backend r)
    → IsSound G b
    → IsSound G (disconnect_client sub b)
unfolding disconnect_client
disconnect_client-IsSound sub b h = elim (Bool-cases (has b.clients sub)) [
  | inl there ↦ rw there h
  | inr absent ↦ rw absent h
]

module _ {G : String → String → Type 0} (d : Postgres) (sign : String → ℕ → Option String)
    {r : Redis} (env : Environment) where
  banned-IsSound :
      (id : ℤ) (b : Backend r) (x : Result (String × Bool)) (c : Conn)
      → Grows b.conn.tables c.tables
      → IsSound G b
      → IsSound G (banned d sign env id b (x, c)).1
  unfolding banned
  banned-IsSound id b (err no_rows) c g h = Sound-conn b c g h
  banned-IsSound id b (err failed) c g h = Sound-conn b c g h
  banned-IsSound id b (ok (sub, true)) c g h =
      disconnect_client-IsSound sub (record b { conn = c }) (Sound-conn b c g h)
  banned-IsSound id b (ok (sub, false)) c g h = Sound-conn b c g h

  unbanned-IsSound :
      (id : ℤ) (b : Backend r) (x : Result (String × Bool)) (c : Conn)
      → Grows b.conn.tables c.tables
      → IsSound G b
      → IsSound G (unbanned d sign env id b (x, c)).1
  unfolding unbanned
  unbanned-IsSound id b (err no_rows) c g h = Sound-conn b c g h
  unbanned-IsSound id b (err failed) c g h = Sound-conn b c g h
  unbanned-IsSound id b (ok (sub, changed)) c g h = Sound-conn b c g h

  act-IsSound :
      (action : String) (b : Backend r) (x : Parsed)
      → IsSound G b
      → IsSound G (act d sign env action b x).1
  unfolding act
  act-IsSound action b bad_syntax h = h
  act-IsSound action b (out_of_range n) h = h
  act-IsSound action b (parsed id) h = elim (Bool-cases (action == "ban")) [
    | inl ban ↦
        let (x, c) = ban_with env id b.conn in
        rw ban (banned-IsSound id b x c (ban_with-Grows env id b.conn) h)
    | inr other ↦ elim (Bool-cases (action == "unban")) [
      | inl unban ↦
          let (x, c) = unban_with env id b.conn in
          rw (other, unban) (unbanned-IsSound id b x c (unban_with-Grows env id b.conn) h)
      | inr neither ↦ rw (other, neither) h
    ]
  ]

  act_on-IsSound :
      (b : Backend r) (parts : List String) → IsSound G b → IsSound G (act_on d sign env b parts).1
  unfolding act_on
  act_on-IsSound b [] h = h
  act_on-IsSound b (id ∷ []) h = h
  act_on-IsSound b (id ∷ action ∷ []) h = act-IsSound action b (parse_int id) h
  act_on-IsSound b (id ∷ action ∷ more ∷ rest) h = h

  admin_user_action-IsSound :
      (req : AdminRequest) (b : Backend r)
      → IsSound G b
      → IsSound G (admin_user_action d sign env req b).1
  unfolding admin_user_action
  admin_user_action-IsSound req b h = elim (Bool-cases (req.method == "POST")) [
    | inl post ↦
        rw post (act_on-IsSound b (split_slash (trim_prefix req.path "/admin/api/users/")) h)
    | inr other ↦ rw other h
  ]

  module _ (user pass : String) where
    route-IsSound :
        (req : AdminRequest) (b : Backend r)
        → IsSound G b
        → IsSound G (route d sign env user pass req b).1
    unfolding route
    route-IsSound req b h = elim (Bool-cases (req.path == "/admin/api/reports")) [
      | inl list ↦ rw list (Untouched-IsSound (admin_list_reports-Untouched d sign env req b) h)
      | inr other ↦ elim (Bool-cases (starts_with req.path "/admin/api/reports/")) [
        | inl one ↦
            rw (other, one) (Untouched-IsSound (admin_get_report-Untouched d sign env req b) h)
        | inr second ↦ elim (Bool-cases (starts_with req.path "/admin/api/users/")) [
          | inl users ↦ rw (other, second, users) (admin_user_action-IsSound req b h)
          | inr static ↦ rw (other, second, static) h
        ]
      ]
    ]

    pub serve_admin-IsSound :
        (req : AdminRequest) (b : Backend r)
        → IsSound G b
        → IsSound G (serve_admin d sign env user pass req b).1
    unfolding serve_admin admin_auth
    serve_admin-IsSound req b h = go req.login
      where
        go :
            (login : Option (String × String))
            → IsSound G (admin_auth d sign env user pass (route d sign env user pass) login req b).1
        go none = h
        go (some (u, p)) = elim (Bool-cases (u == user)) [
          | inr stranger ↦ rw stranger h
          | inl known ↦ elim (Bool-cases (p == pass)) [
            | inr wrong ↦ rw (known, wrong) h
            | inl right ↦ rw (known, right) (route-IsSound req b h)
          ]
        ]
