-- ===== src/Main/Ready.antt =====
-- What backend/main.go has made sure of when its server runs.
use text.Mathlib.Text.{starts_with}
use banana_talk.Prelude.{
  ℕ, String, ◌≡◌, ◌≢◌, refl, sym, ap, subst, ◌∙◌, inl, inr, Bool, true, false, ◌||◌, Option, none,
  some, ◌==◌, eq_iff, Bool-cases, arith,
}
use banana_talk.Storage.{to_lower, Storage, S3Client, GcsClient, new_storage}
use banana_talk.Routes.{Route, dashboard, base_route, route_of}
use banana_talk.Main.{
  get_env, both_set, RedisOptions, redis_options, storage_settings, dashboard_login, Pgx, init_db,
  Config, Failure, exits, serves, with_storage, with_database, start_up,
}

get_env-empty : (env : String → String) (key : String) → get_env env key "" ≡ env key
unfolding get_env
get_env-empty env key = elim (Bool-cases (env key == "")) [
  | inl unset ↦ rw unset (sym ((eq_iff (env key) "").0 unset))
  | inr given ↦ rw given refl
]

exits_ne : {Body : Type 0} {f : Failure} {c : Config Body} → exits f ≡ serves c → ⊥
exits_ne e = cc

none_ne : {x : String × String} → none ≡ some x → ⊥
none_ne e = cc

some_inj : {x y : String × String} → some x ≡ some y → x ≡ y
some_inj {x} e = ap (elim [ none ↦ x | some z ↦ z ]) e

serves_inj : {Body : Type 0} {c d : Config Body} → serves c ≡ serves d → c ≡ d
serves_inj {c} e = ap (elim [ exits f ↦ c | serves z ↦ z ]) e

-- The dashboard is reached with the credentials of the environment alone, neither of them empty.
abbrev pub Guarded : (String → String) → Option (String × String) → Type 0
Guarded env login =
    (user pass path : String)
    → route_of login path ≡ dashboard user pass
    → (user ≡ env "ADMIN_USERNAME") × (pass ≡ env "ADMIN_PASSWORD") × (user ≢ "") × (pass ≢ "")

credentials : Route → Option (String × String)
credentials (dashboard user pass) = some (user, pass)
credentials _ = none

credentials-base_route : (path : String) → credentials (base_route path) ≡ none
unfolding credentials
credentials-base_route path = ground arith

-- Only the credentials that were given.
credentials-route_of :
    (login : Option (String × String)) (path : String) {user pass : String}
    → route_of login path ≡ dashboard user pass
    → login ≡ some (user, pass)
unfolding route_of credentials
credentials-route_of none path e =
    absurd (none_ne (sym (credentials-base_route path) ∙ ap credentials e))
credentials-route_of (some (u, w)) path {user} {pass} e =
    elim (Bool-cases (path == "/admin" || path == "/admin/api/users")) [
      | inl bare ↦ absurd (none_ne (ap credentials (rw bare at e)))
      | inr other ↦ elim (Bool-cases (starts_with path "/admin/")) [
        | inl below ↦ ap credentials (rw (other, below) at e)
        | inr outside ↦ absurd (
            none_ne (sym (credentials-base_route path) ∙ ap credentials (rw (other, outside) at e)))
      ]
    ]

both_set_given :
    (a b : String) {user pass : String}
    → both_set a b ≡ some (user, pass)
    → (user ≡ a) × (pass ≡ b) × (user ≢ "") × (pass ≢ "")
both_set_given a b {user} {pass} h = elim (Bool-cases (a == "")) [
  | inl no_user ↦ absurd (none_ne (rw no_user at h))
  | inr named ↦ elim (Bool-cases (b == "")) [
    | inl no_pass ↦ absurd (none_ne (rw (named, no_pass) at h))
    | inr secret ↦
        let e : ◌≡◌ {A = String × String} (a, b) (user, pass) =
          some_inj (rw (named, secret) at h) in
        let u = sym (ap (λ q. q.0) e) in
        let w = sym (ap (λ q. q.1) e) in
        (
          u,
          w,
          λ z. absurd (ground (arith, named, (eq_iff a "").1 (sym u ∙ z))),
          λ z. absurd (ground (arith, secret, (eq_iff b "").1 (sym w ∙ z))),
        )
  ]
]

dashboard_login-Guarded : (env : String → String) → Guarded env (dashboard_login env)
unfolding dashboard_login
dashboard_login-Guarded env user pass path e =
    let user_set = get_env-empty env "ADMIN_USERNAME" in
    let pass_set = get_env-empty env "ADMIN_PASSWORD" in
    let (u, w, ne_user, ne_pass) =
      both_set_given (get_env env "ADMIN_USERNAME" "") (get_env env "ADMIN_PASSWORD" "")
        (credentials-route_of (dashboard_login env) path e) in
    (u ∙ user_set, w ∙ pass_set, ne_user, ne_pass)

module _ {Body : Type 0} (env : String → String) (redis_pings : RedisOptions → Bool) (p : Pgx)
    (s3 : Option (S3Client Body))
    (gcs : Option ((client : GcsClient Body) × (client.State → ℕ))) where
  pub record IsReady (c : Config Body) : Type 1 where
    pub redis_up : redis_pings c.redis ≡ true
    pub dsn_given : (c.dsn ≡ env "DB_DSN") × (c.dsn ≢ "")
    pub connected :
        (p.new_pool c.dsn ≡ true) × (p.pings c.dsn ≡ true) × (p.exec_schema c.dsn ≡ true)
    pub stored : new_storage (storage_settings env) s3 gcs ≡ some c.storage
    pub guarded : Guarded env c.login

  -- The configuration of a start that serves.
  abbrev configured : Storage Body → Config Body
  configured storage = record {
    redis = redis_options env;
    trust_proxy = to_lower (get_env env "TRUST_PROXY_HEADERS" "") == "true";
    dsn = get_env env "DB_DSN" "";
    storage = storage;
    login = dashboard_login env;
  }

  with_storage-configured :
      (x : Option (Storage Body)) {c : Config Body}
      → with_storage env redis_pings p s3 gcs x ≡ serves c
      → (s : Storage Body) × (x ≡ some s) × (configured s ≡ c)
  unfolding with_storage
  with_storage-configured none h = absurd (exits_ne h)
  with_storage-configured (some s) h = (s, refl, serves_inj h)

  with_database-configured :
      (pooled : Bool) {c : Config Body}
      → with_database env redis_pings p s3 gcs pooled ≡ serves c
      → (pooled ≡ true)
        × (s : Storage Body) × (new_storage (storage_settings env) s3 gcs ≡ some s)
        × (configured s ≡ c)
  unfolding with_database
  with_database-configured false h = absurd (exits_ne h)
  with_database-configured true h =
      let (s, e, k) = with_storage-configured (new_storage (storage_settings env) s3 gcs) h in
      (refl, s, e, k)

  init_db-pooled :
      (dsn : String)
      → (init_db p dsn).0 ≡ true
      → (p.new_pool dsn ≡ true) × (p.pings dsn ≡ true) × (p.exec_schema dsn ≡ true)
  unfolding init_db
  init_db-pooled dsn h = ground arith

  configured-IsReady :
      (s : Storage Body)
      → redis_pings (redis_options env) ≡ true
      → (get_env env "DB_DSN" "" == "") ≡ false
      → (init_db p (get_env env "DB_DSN" "")).0 ≡ true
      → new_storage (storage_settings env) s3 gcs ≡ some s
      → IsReady (configured s)
  configured-IsReady s up given pooled stored = record {
    redis_up = up;
    dsn_given = (
      get_env-empty env "DB_DSN",
      λ z. absurd (ground (arith, given, (eq_iff (get_env env "DB_DSN" "") "").1 z)),
    );
    connected = init_db-pooled (get_env env "DB_DSN" "") pooled;
    stored = stored;
    guarded = dashboard_login-Guarded env;
  }

  -- A start that gets to the server has been answered by the Redis of its options and by the
  -- PostgreSQL of DB_DSN, which is set and in which the schema has been run, and has the storage that
  -- the settings choose; and its routes lead to the dashboard with the credentials ADMIN_USERNAME and
  -- ADMIN_PASSWORD alone, and only if neither of them is empty.
  pub start_up-IsReady :
      {c : Config Body} → start_up env redis_pings p s3 gcs ≡ serves c → IsReady c
  unfolding start_up
  start_up-IsReady {c} h = elim (Bool-cases (redis_pings (redis_options env))) [
    | inr down ↦ absurd (exits_ne (rw down at h))
    | inl up ↦ elim (Bool-cases (get_env env "DB_DSN" "" == "")) [
      | inl unset ↦ absurd (exits_ne (rw (up, unset) at h))
      | inr given ↦
          let (pooled, s, stored, e) =
            with_database-configured (init_db p (get_env env "DB_DSN" "")).0
              (rw (up, given) at h) in
          subst IsReady e (configured-IsReady s up given pooled stored)
    ]
  ]
