-- ===== src/Backend/Known.antt =====
-- What looking up a user, or adding a stub, gives in the handlers of backend/block.go and
-- backend/report.go.
use banana_talk.Prelude.{
  ℕ, String, ◌≡◌, refl, sym, ap, Bool-cases, Option-cases, inl, inr, subst, ◌∙◌, Bool,
}
use banana_talk.Sql.{Environment, Conn, Tables, Result, ok, err, no_rows, failed, pure, proceed}
use banana_talk.Sql.Laws.{bind-ok}
use banana_talk.Db.Statements.{upsert_sql}
use banana_talk.Db.Lookups.{
  row_of, Found, upsert_user-Found, get_user_id_by_google_sub-Found,
  get_user_id_by_google_sub-tables,
}
use banana_talk.Db.Invariant.{Valid}
use banana_talk.Db.Calls.{upserts, perform-Valid}
use banana_talk.Db.{upsert_user, get_user_id_by_google_sub}
use banana_talk.Backend.{stub_id, stub, known_or_stub}

ok_inj : {x y : ℕ} → ok x ≡ ok y → x ≡ y
ok_inj {x} e = ap (elim [ err d ↦ x | ok z ↦ z ]) e

err_ne : {x : ℕ} → err failed ≡ ok x → ⊥
err_ne e = cc

Found-from :
    (sub : String) (id : ℕ) (s t t' : Tables) → s ≡ t → Found sub id s t' → Found sub id t t'
Found-from sub id s t t' e f = rw (← e) f

module _ (env : Environment) (sub : String) where
  stub_id-Found :
      (c c' : Conn) {id : ℕ} → stub_id env sub c ≡ (ok id, c') → Found sub id c.tables c'.tables
  unfolding stub_id
  stub_id-Found c c' {id} h =
      let (p, c1, e, rest) = bind-ok (upsert_user env sub) (λ found. pure found.0) c h in
      let f = upsert_user-Found env sub c c1 e in
      subst (λ i. Found sub i c.tables c'.tables) (ok_inj (ap (λ q. q.0) rest))
        (subst (λ d. Found sub p.0 c.tables d.tables) (ap (λ q. q.1) rest) f)

  pub known_or_stub-Found :
      (c c' : Conn) {id : ℕ}
      → known_or_stub env sub c ≡ (ok id, c')
      → Found sub id c.tables c'.tables
  unfolding known_or_stub stub
  known_or_stub-Found c c' {id} h =
      let (x, c1) = get_user_id_by_google_sub env sub c in go x c1 refl h
    where
      go :
          (x : Result ℕ) (c1 : Conn)
          → get_user_id_by_google_sub env sub c ≡ (x, c1)
          → stub env sub x c1 ≡ (ok id, c')
          → Found sub id c.tables c'.tables
      go (ok i) c1 e k = get_user_id_by_google_sub-Found env sub c c' (e ∙ k)
      go (err no_rows) c1 e k =
          Found-from sub id c1.tables c.tables c'.tables
            (ap (λ p. p.1.tables) (sym e) ∙ get_user_id_by_google_sub-tables env sub c)
            (stub_id-Found c1 c' k)
      go (err failed) c1 e k = absurd (err_ne (ap (λ p. p.0) k))

  stub_id-Valid : (c : Conn) → Valid c.tables → Valid (stub_id env sub c).1.tables
  unfolding stub_id
  stub_id-Valid c v = let (x, c1) = upsert_user env sub c in go x c1 refl
    where
      go :
          (x : Result (ℕ × Bool)) (c1 : Conn)
          → upsert_user env sub c ≡ (x, c1)
          → Valid (proceed x (λ found. pure found.0) c1).1.tables
      go (ok p) c1 e = rw (ap (λ q. q.1) e) at (perform-Valid env (upserts sub) c v)
      go (err d) c1 e = rw (ap (λ q. q.1) e) at (perform-Valid env (upserts sub) c v)

  stub-Valid : (x : Result ℕ) (c : Conn) → Valid c.tables → Valid (stub env sub x c).1.tables
  unfolding stub
  stub-Valid (ok id) c v = v
  stub-Valid (err no_rows) c v = stub_id-Valid c v
  stub-Valid (err failed) c v = v

  -- Looking up or adding a user keeps the tables valid.
  pub known_or_stub-Valid : (c : Conn) → Valid c.tables → Valid (known_or_stub env sub c).1.tables
  unfolding known_or_stub
  known_or_stub-Valid c v =
      let (x, c1) = get_user_id_by_google_sub env sub c in
      stub-Valid x c1 (rw (get_user_id_by_google_sub-tables env sub c) v)

-- The reports and the blocks are the same.
abbrev pub SameFiles : Tables → Tables → Type 0
SameFiles s t = (s.reports ≡ t.reports) × (s.blocks ≡ t.blocks)

module _ (env : Environment) (sub : String) where
  pub upsert_user-files : (c : Conn) → SameFiles (upsert_user env sub c).1.tables c.tables
  unfolding upsert_user upsert_sql
  upsert_user-files c = elim (Bool-cases (env.fails c.step)) [
    | inl bad ↦ rw bad (refl, refl)
    | inr good ↦ rw good (elim (Option-cases (row_of sub c.tables)) [
      | inl absent ↦ rw (absent, upsert_sql) (refl, refl)
      | inr (u, row) ↦ rw (row, upsert_sql) (refl, refl)
    ])
  ]

  stub_id-files : (c : Conn) → SameFiles (stub_id env sub c).1.tables c.tables
  unfolding stub_id
  stub_id-files c = let (x, c1) = upsert_user env sub c in go x c1 refl
    where
      go :
          (x : Result (ℕ × Bool)) (c1 : Conn)
          → upsert_user env sub c ≡ (x, c1)
          → SameFiles (proceed x (λ found. pure found.0) c1).1.tables c.tables
      go (ok p) c1 e = rw (ap (λ q. q.1) e) at (upsert_user-files c)
      go (err d) c1 e = rw (ap (λ q. q.1) e) at (upsert_user-files c)

  stub-files : (x : Result ℕ) (c : Conn) → SameFiles (stub env sub x c).1.tables c.tables
  unfolding stub
  stub-files (ok id) c = (refl, refl)
  stub-files (err no_rows) c = stub_id-files c
  stub-files (err failed) c = (refl, refl)

  -- Looking up or adding a user changes no report and no block.
  pub known_or_stub-files : (c : Conn) → SameFiles (known_or_stub env sub c).1.tables c.tables
  unfolding known_or_stub
  known_or_stub-files c =
      let (x, c1) = get_user_id_by_google_sub env sub c in
      rw (get_user_id_by_google_sub-tables env sub c) at (stub-files x c1)
