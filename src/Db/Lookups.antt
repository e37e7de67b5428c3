-- ===== src/Db/Lookups.antt =====
-- What the lookups and the insertion of a user leave in the tables (backend/db.go).
use banana_talk.Prelude.{
  ℕ, String, ◌≡◌, ◌≢◌, refl, sym, ap, subst, ◌∙◌, inl, inr, Bool, false, Option, none, some, ◌==ℕ◌,
  eq_refl, eq_false_of_ne, Bool-cases, Option-cases, arith,
}
use banana_talk.Sql.{User, Tables, Environment, Conn, ok, err, statement, sent, pure}
use banana_talk.Sql.Laws.{statement-ok, bind-ok}
use banana_talk.Db.Statements.{
  first_where, has_sub, new_user, one_row, upsert_sql, select_user_sql, insert_blocks_sql,
  insert_block_row, load_blocks_sql, blocked_subs,
}
use banana_talk.Db.Reports.{insert_blocks_sql-ok}
use banana_talk.Db.{upsert_user, get_user_id_by_google_sub, insert_block, load_user_blocks}

-- The user with a google_sub.
abbrev pub row_of : String → Tables → Option User
row_of sub t = first_where (has_sub sub) t.users

-- `sub` has the id `id` now, all others are found as before, and the blocks are as before.
pub record Found (sub : String) (id : ℕ) (t t' : Tables) : Type 0 where
  pub user : User
  pub row : row_of sub t' ≡ some user
  pub same_id : user.id ≡ id
  pub others : (other : String) → other ≢ sub → row_of other t' ≡ row_of other t
  pub same_blocks : t'.blocks ≡ t.blocks

pub res_inj {ℓ} : {A : Type ℓ} {x y : A} → ok x ≡ ok y → x ≡ y
res_inj {x} e = ap (elim [ err d ↦ x | ok z ↦ z ]) e

upsert_sql-Found :
    (sub : String) (now : ℕ) (t t' : Tables) {id : ℕ} {fresh : Bool}
    → upsert_sql sub now t ≡ (ok (id, fresh), t')
    → Found sub id t t'
unfolding upsert_sql
upsert_sql-Found sub now t t' {id} {fresh} h = go (row_of sub t) refl
  where
    go : (x : Option User) → row_of sub t ≡ x → Found sub id t t'
    go none e =
        let k = rw (e, upsert_sql) at h in
        let et = ap (λ p. p.1) (sym k) in
        record {
          user = new_user t.next_user_id sub now;
          row = rw et (rw (eq_refl sub) refl);
          same_id = ap (λ p. p.0) (res_inj (ap (λ p. p.0) k));
          others = λ other ne. rw et (rw (eq_false_of_ne sub other (λ q. ne (sym q))) refl);
          same_blocks = rw et refl;
        }
    go (some u) e =
        let k = rw (e, upsert_sql) at h in
        let et = ap (λ p. p.1) (sym k) in
        record {
          user = u;
          row = rw et e;
          same_id = ap (λ p. p.0) (res_inj (ap (λ p. p.0) k));
          others = λ other ne. rw et refl;
          same_blocks = rw et refl;
        }

one_row-ok : {A : Type 0} (x : Option A) {a : A} → one_row x ≡ ok a → x ≡ some a
one_row-ok none e = cc
one_row-ok (some b) e = ap some (res_inj e)

-- A row that is there is found, and nothing changes.
Found-same :
    (sub : String) (t t' : Tables) (u : User) → t' ≡ t → row_of sub t ≡ some u → Found sub u.id t t'
Found-same sub t t' u e row = record {
  user = u;
  row = rw e row;
  same_id = refl;
  others = λ other ne. rw e refl;
  same_blocks = rw e refl;
}

module _ (env : Environment) where
  pub upsert_user-Found :
      (sub : String) (c c' : Conn) {id : ℕ} {fresh : Bool}
      → upsert_user env sub c ≡ (ok (id, fresh), c')
      → Found sub id c.tables c'.tables
  unfolding upsert_user
  upsert_user-Found sub c c' h =
      upsert_sql-Found sub (env.now c.step) c.tables c'.tables
        (statement-ok env (upsert_sql sub) c h).0

  pub get_user_id_by_google_sub-Found :
      (sub : String) (c c' : Conn) {id : ℕ}
      → get_user_id_by_google_sub env sub c ≡ (ok id, c')
      → Found sub id c.tables c'.tables
  unfolding get_user_id_by_google_sub select_user_sql
  get_user_id_by_google_sub-Found sub c c' {id} h =
      let (u, c1, e, rest) =
        bind-ok (statement env (λ _. select_user_sql sub)) (λ u. pure u.id) c h in
      let (did, next) = statement-ok env (λ _. select_user_sql sub) c e in
      let row = one_row-ok (row_of sub c.tables) (ap (λ p. p.0) did) in
      let same = ap (λ p. p.1.tables) (sym rest) ∙ ap (λ p. p.1) (sym did) in
      subst (λ n. Found sub n c.tables c'.tables) (res_inj (ap (λ p. p.0) rest))
        (Found-same sub c.tables c'.tables u same row)

  -- A lookup changes no table, whatever its result.
  pub get_user_id_by_google_sub-tables :
      (sub : String) (c : Conn) → (get_user_id_by_google_sub env sub c).1.tables ≡ c.tables
  unfolding get_user_id_by_google_sub select_user_sql
  get_user_id_by_google_sub-tables sub c = elim (Bool-cases (env.fails c.step)) [
    | inl bad ↦ rw bad refl
    | inr good ↦ rw good (elim (Option-cases (row_of sub c.tables)) [
      | inl absent ↦ rw absent refl
      | inr (u, row) ↦ rw row refl
    ])
  ]

  pub insert_block-ok :
      (a b : ℕ) (c c' : Conn) {u : Unit {0}}
      → insert_block env a b c ≡ (ok u, c')
      → (a ≢ b)
        × (now : ℕ) × (c'.tables ≡ record c.tables {
          blocks = insert_block_row b a now (insert_block_row a b now c.tables.blocks);
        })
  unfolding insert_block
  insert_block-ok a b c c' h = elim (Bool-cases (a ==ℕ b)) [
    | inl self ↦ absurd (ground (arith, ap (λ p. p.0) (rw self at h)))
    | inr pair ↦
        let (did, next) = statement-ok env (insert_blocks_sql a b) c (rw pair at h) in
        let (ne, et) = insert_blocks_sql-ok a b (env.now c.step) c.tables did in
        (ne, env.now c.step, et)
  ]

  pub get_user_id_by_google_sub-finds :
      (sub : String) (c : Conn) {u : User}
      → env.fails c.step ≡ false
      → row_of sub c.tables ≡ some u
      → get_user_id_by_google_sub env sub c ≡ (ok u.id, sent c)
  unfolding get_user_id_by_google_sub select_user_sql
  get_user_id_by_google_sub-finds sub c up row = rw up (rw row refl)

  pub load_user_blocks-lists :
      (id : ℕ) (c : Conn)
      → env.fails c.step ≡ false
      → load_user_blocks env id c ≡ (ok (blocked_subs id c.tables.users c.tables.blocks), sent c)
  unfolding load_user_blocks load_blocks_sql
  load_user_blocks-lists id c up = rw up refl
