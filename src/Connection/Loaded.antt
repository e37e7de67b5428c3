-- ===== src/Connection/Loaded.antt =====
-- What `loadUserBlocks` of backend/db.go gives of the blocks in the database.
use banana_talk.Prelude.{
  ℕ, String, ◌≡◌, refl, sym, ap, ◌∙◌, true, Option, none, some, List, ==ℕ_iff, eq_iff, has,
}
use banana_talk.Sql.{User, Environment, Conn, ok}
use banana_talk.Sql.Laws.{statement-ok}
use banana_talk.Db.Statements.{has_id, has_sub, has_block, load_blocks_sql}
use banana_talk.Db.Invariant.{Valid}
use banana_talk.Db.Bans.{updated_row}
use banana_talk.Db.Listing.{
  first_where-holds, first_where-has_id, has-blocked_subs, All-Unit, blocked_subs-HasBlocked,
}
use banana_talk.Db.Lookups.{row_of, res_inj}
use banana_talk.Db.Extends.{id_of}
use banana_talk.Db.{load_user_blocks}
use banana_talk.Backend.Sound.{BlockedIn}

some_inj {ℓ} : {A : Type ℓ} {x y : A} → some x ≡ some y → x ≡ y
some_inj {x} e = ap (elim [ none ↦ x | some z ↦ z ]) e

none_ne : {x : ℕ} → none ≡ some x → ⊥
none_ne e = cc

-- A user whose id is known has a row.
some_row : (x : Option User) {j : ℕ} → id_of x ≡ some j → (w : User) × (x ≡ some w) × (w.id ≡ j)
some_row none e = absurd (none_ne e)
some_row (some w) e = (w, refl, some_inj e)

module _ (env : Environment) where
  -- What `loadUserBlocks` gives are blocks of the user.
  pub load_user_blocks-BlockedIn :
      (user : String) (id : ℕ) (c c' : Conn) {subs : List String}
      → Valid c.tables
      → id_of (row_of user c.tables) ≡ some id
      → load_user_blocks env id c ≡ (ok subs, c')
      → (v : String) → has subs v ≡ true
      → BlockedIn c'.tables user v
  unfolding load_user_blocks load_blocks_sql
  load_user_blocks-BlockedIn user id c c' valid own h v listed =
      let (did, next) = statement-ok env (λ _. load_blocks_sql id) c h in
      let t = c.tables in
      let (j, w, row, name, hit) =
        blocked_subs-HasBlocked id t.users t.blocks v
          (ap (λ l. has l v) (res_inj (ap (λ p. p.0) did)) ∙ listed) in
      let found = (updated_row _ none t.users valid.unique row).0 in
      let this = (first_where-holds (has_id j) (λ u. Unit {0}) t.users row (All-Unit t.users)).0 in
      rw (← ap (λ p. p.1) did) (record {
        blocker = id;
        target = w.id;
        blocker_row = own;
        target_row = rw (← name) (ap id_of found);
        row = rw ((==ℕ_iff w.id j).0 this) hit;
      })

  -- It gives all of them.
  pub load_user_blocks_complete :
      (user : String) (id : ℕ) (c c' : Conn) {subs : List String}
      → Valid c.tables
      → id_of (row_of user c.tables) ≡ some id
      → load_user_blocks env id c ≡ (ok subs, c')
      → (v : String) → BlockedIn c'.tables user v
      → has subs v ≡ true
  unfolding load_user_blocks load_blocks_sql
  load_user_blocks_complete user id c c' valid own h v p =
      let (did, next) = statement-ok env (λ _. load_blocks_sql id) c h in
      let same = ap (λ q. q.1) did in
      let t = c.tables in
      let (w, row, target) = some_row (row_of v t) (rw (← same) at (p.target_row)) in
      let named =
        (eq_iff w.google_sub v).0
          (first_where-holds (has_sub v) (λ u. Unit {0}) t.users row (All-Unit t.users)).0 in
      let first = some_inj (sym own ∙ (rw (← same) at (p.blocker_row))) in
      let hit = ap (λ i. has_block t.blocks i p.target) first ∙ (rw (← same) at (p.row)) in
      let held =
        has-blocked_subs id p.target t.users t.blocks
          (rw target at (first_where-has_id v t.users valid.unique row)) hit in
      ap (λ l. has l v) (sym (res_inj (ap (λ q. q.0) did))) ∙ (rw named at held)
