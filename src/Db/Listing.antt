-- ===== src/Db/Listing.antt =====
-- Which users the list of a user's blocks names (backend/db.go).
use banana_talk.Prelude.{
  ℕ, String, ◌≡◌, ◌≢◌, refl, ap, ◌∙◌, inl, inr, Bool, true, false, Option, none, some, List, [],
  ◌∷◌, ◌==ℕ◌, ◌==◌, eq_iff, eq_refl, ==ℕ_iff, Bool-cases, arith, All, has,
}
use banana_talk.Sql.{User, Block}
use banana_talk.Db.Statements.{first_where, has_sub, has_id, has_block, blocked_subs, join_sub}
use banana_talk.Db.Rows.{Unique, Differs}

some_inj {ℓ} : {A : Type ℓ} {x y : A} → some x ≡ some y → x ≡ y
some_inj {x} e = ap (elim [ none ↦ x | some z ↦ z ]) e

none_ne : {A : Type 0} {x : A} → none ≡ some x → ⊥
none_ne e = cc

-- A row that is found satisfies the condition, and whatever all rows satisfy.
pub first_where-holds :
    (p : User → Bool) (P : User → Type 0) (us : List User) {u : User}
    → first_where p us ≡ some u
    → All P us
    → (p u ≡ true) × P u
first_where-holds p P [] e h = absurd (none_ne e)
first_where-holds p P (v ∷ us) {u} e (h, hs) = elim (Bool-cases (p v)) [
  | inl hit ↦ let q = some_inj (rw hit at e) in rw (← q) (hit, h)
  | inr miss ↦ first_where-holds p P us (rw miss at e) hs
]

pub All-Unit : (us : List User) → All (λ u. Unit {0}) us
All-Unit [] = tt
All-Unit (u ∷ us) = (tt, All-Unit us)

neq : (v w : User) → v.id ≢ w.id → has_id v.id w ≡ false
neq v w h = ground (arith, h)

-- Where google_subs and ids are unique, a user found by the one is found by the other.
pub first_where-has_id :
    (sub : String) (us : List User) {v : User}
    → Unique us
    → first_where (has_sub sub) us ≡ some v
    → first_where (has_id v.id) us ≡ some v
first_where-has_id sub [] h e = absurd (none_ne e)
first_where-has_id sub (w ∷ us) {v} (h, hs) e = elim (Bool-cases (has_sub sub w)) [
  | inl hit ↦ let q = some_inj (rw hit at e) in rw (← q) (rw ((==ℕ_iff w.id w.id).1 refl) refl)
  | inr miss ↦
      let k = rw miss at e in
      let (named, differs) = first_where-holds (has_sub sub) (Differs w) us k h in
      rw (neq v w differs.0) (first_where-has_id sub us hs k)
]

has-join_sub :
    (x : Option User) (subs : List String) (s : String)
    → has subs s ≡ true
    → has (join_sub x subs) s ≡ true
has-join_sub none subs s h = h
has-join_sub (some u) subs s h = ground (arith, h)

pub has-blocked_subs :
    (i j : ℕ) (us : List User) (rows : List Block) {v : User}
    → first_where (has_id j) us ≡ some v
    → has_block rows i j ≡ true
    → has (blocked_subs i us rows) v.google_sub ≡ true
has-blocked_subs i j us [] e h = absurd (ground (arith, h))
has-blocked_subs i j us (r ∷ rs) {v} e h = elim (Bool-cases (r.blocker_id ==ℕ i)) [
  | inr other ↦ rw other (has-blocked_subs i j us rs e (ground (arith, h, other)))
  | inl own ↦ rw own (elim (Bool-cases (r.blocked_id ==ℕ j)) [
    | inl this ↦
        let q = (==ℕ_iff r.blocked_id j).0 this in
        rw (ap (λ k. first_where (has_id k) us) q ∙ e) (rw (eq_refl v.google_sub) refl)
    | inr that ↦
        has-join_sub (first_where (has_id r.blocked_id) us) (blocked_subs i us rs) v.google_sub
          (has-blocked_subs i j us rs e (ground (arith, h, that)))
  ])
]

-- A user of that name has a row, and a block of the user with the id.
abbrev pub HasBlocked : ℕ → List User → List Block → String → Type 0
HasBlocked i us rows v =
    (j : ℕ) × (w : User) × (first_where (has_id j) us ≡ some w)
    × (w.google_sub ≡ v)
    × (has_block rows i j ≡ true)

HasBlocked-later :
    (i : ℕ) (us : List User) (r : Block) (rs : List Block) (v : String)
    → HasBlocked i us rs v
    → HasBlocked i us (r ∷ rs) v
HasBlocked-later i us r rs v (j, w, row, name, hit) = (j, w, row, name, rw hit (ground arith))

HasBlocked-joined :
    (i : ℕ) (us : List User) (r : Block) (rs : List Block) (v : String) (x : Option User)
    → (r.blocker_id ==ℕ i) ≡ true
    → first_where (has_id r.blocked_id) us ≡ x
    → has (join_sub x (blocked_subs i us rs)) v ≡ true
    → (has (blocked_subs i us rs) v ≡ true → HasBlocked i us (r ∷ rs) v)
    → HasBlocked i us (r ∷ rs) v
HasBlocked-joined i us r rs v none own e k later = later k
HasBlocked-joined i us r rs v (some w) own e k later = elim (Bool-cases (w.google_sub == v)) [
  | inr that ↦ later (rw that at k)
  | inl this ↦ (
    r.blocked_id,
    w,
    e,
    (eq_iff w.google_sub v).0 this,
    rw (own, (==ℕ_iff r.blocked_id r.blocked_id).1 refl) refl,
  )
]

-- Whom the list names has a row, and a block of the user.
pub blocked_subs-HasBlocked :
    (i : ℕ) (us : List User) (rows : List Block) (v : String)
    → has (blocked_subs i us rows) v ≡ true
    → HasBlocked i us rows v
blocked_subs-HasBlocked i us [] v h = absurd (ground (arith, h))
blocked_subs-HasBlocked i us (r ∷ rs) v h =
    let later = λ (k : has (blocked_subs i us rs) v ≡ true).
      HasBlocked-later i us r rs v (blocked_subs-HasBlocked i us rs v k) in
    elim (Bool-cases (r.blocker_id ==ℕ i)) [
      | inr other ↦ later (rw other at h)
      | inl own ↦
          HasBlocked-joined i us r rs v (first_where (has_id r.blocked_id) us) own refl
            (rw own at h) later
    ]
