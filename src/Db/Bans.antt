-- ===== src/Db/Bans.antt =====
-- What the UPDATE of a user's ban does to the rows, and what `isUserBanned` then reads
-- (backend/db.go).
use banana_talk.Prelude.{
  ℕ, String, ◌≡◌, ◌≢◌, refl, sym, ap, inl, inr, Bool, false, Option, none, some, List, [], ◌∷◌,
  eq_refl, eq_false_of_ne, Bool-cases, arith,
}
use banana_talk.Sql.{User, Tables, Environment, Conn, DbError, Result, ok, err, no_rows, statement}
use banana_talk.Db.Statements.{
  first_where, update_where, has_sub, is_set, with_ban, sub_of, select_user_sql,
}
use banana_talk.Db.Rows.{Unique, Differs}
use banana_talk.Db.Listing.{first_where-holds}
use banana_talk.Db.Lookups.{row_of}
use banana_talk.Db.{is_user_banned}

some_inj {ℓ} : {A : Type ℓ} {x y : A} → some x ≡ some y → x ≡ y
some_inj {x} e = ap (elim [ none ↦ x | some z ↦ z ]) e

none_ne {ℓ} : {A : Type ℓ} {x : A} → none ≡ some x → ⊥
none_ne e = cc

sub_ne : (u v : User) → u.google_sub ≢ v.google_sub → has_sub u.google_sub v ≡ false
sub_ne u v h = eq_false_of_ne v.google_sub u.google_sub (λ e. h (sym e))

str_inj : {x y : String} → ok x ≡ ok y → x ≡ y
str_inj {x} e = ap (elim [ err d ↦ x | ok z ↦ z ]) e

err_ne : {d : DbError} {x : String} → err d ≡ ok x → ⊥
err_ne e = cc

ok_ne : {d : DbError} {x : String} → ok x ≡ err d → ⊥
ok_ne e = cc

-- The user whose row an update changes is found by the google_sub afterwards.
pub updated_row :
    (p : User → Bool) (at : Option ℕ) (us : List User) {u : User}
    → Unique us
    → first_where p us ≡ some u
    → (first_where (has_sub u.google_sub) us ≡ some u)
      × (first_where (has_sub u.google_sub) (update_where p (with_ban at) us)
          ≡ some (with_ban at u))
updated_row p at [] h e = absurd (none_ne e)
updated_row p at (v ∷ us) {u} (h, hs) e = elim (Bool-cases (p v)) [
  | inl hit ↦
      let q = some_inj (rw hit at e) in
      rw (← q) (rw (eq_refl v.google_sub) refl, rw hit (rw (eq_refl v.google_sub) refl))
  | inr miss ↦
      let k = rw miss at e in
      let (named, differs) = first_where-holds p (Differs v) us k h in
      let (before, later) = updated_row p at us hs k in
      let other = sub_ne u v differs.1 in (rw other before, rw miss (rw other later))
]

-- No row changes where none satisfies the condition.
pub update_where-none :
    (p : User → Bool) (f : User → User) (us : List User)
    → first_where p us ≡ none
    → update_where p f us ≡ us
update_where-none p f [] e = refl
update_where-none p f (v ∷ us) e = elim (Bool-cases (p v)) [
  | inl hit ↦ absurd (none_ne (sym (rw hit at e)))
  | inr miss ↦ rw miss (ap (λ vs. v ∷ vs) (update_where-none p f us (rw miss at e)))
]

pub missed :
    (p q : User → Bool) (us : List User) {u : User}
    → first_where p us ≡ none
    → first_where q us ≡ some u
    → p u ≡ false
missed p q [] e k = absurd (none_ne k)
missed p q (v ∷ us) e k = elim (Bool-cases (p v)) [
  | inl hit ↦ absurd (none_ne (sym (rw hit at e)))
  | inr miss ↦ elim (Bool-cases (q v)) [
    | inl this ↦ rw (← some_inj (rw this at k)) miss
    | inr that ↦ missed p q us (rw miss at e) (rw that at k)
  ]
]

pub sub_of-some :
    (x : Option User) {s : String}
    → sub_of x ≡ ok s
    → (u : User) × (x ≡ some u) × (u.google_sub ≡ s)
sub_of-some none e = absurd (err_ne e)
sub_of-some (some u) e = (u, refl, str_inj e)

pub sub_of-none : (x : Option User) → sub_of x ≡ err no_rows → x ≡ none
sub_of-none none e = refl
sub_of-none (some u) e = absurd (ok_ne e)

module _ (env : Environment) where
  pub statement-no_rows :
      (body : ℕ → Tables → Result String × Tables) (c : Conn) {c' : Conn}
      → statement env body c ≡ (err no_rows, c')
      → (env.fails c.step ≡ false) × (body (env.now c.step) c.tables ≡ (err no_rows, c'.tables))
  statement-no_rows body c h = elim (Bool-cases (env.fails c.step)) [
    | inl bad ↦ absurd (ground (arith, ap (λ p. p.0) (rw bad at h)))
    | inr good ↦ (good, ap (λ p. (p.0, p.1.tables)) (rw good at h))
  ]

  pub statement-sent :
      (body : ℕ → Tables → Result String × Tables) (c : Conn) {s : String} {c' : Conn}
      → statement env body c ≡ (ok s, c')
      → env.fails c.step ≡ false
  statement-sent body c h = elim (Bool-cases (env.fails c.step)) [
    | inl bad ↦ absurd (ground (arith, ap (λ p. p.0) (rw bad at h)))
    | inr good ↦ good
  ]

  pub is_user_banned-row :
      (sub : String) (c : Conn) {u : User}
      → env.fails c.step ≡ false
      → row_of sub c.tables ≡ some u
      → (is_user_banned env sub c).0 ≡ ok (is_set u.banned_at)
  unfolding is_user_banned select_user_sql
  is_user_banned-row sub c up row = rw up (rw row refl)
