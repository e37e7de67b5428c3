-- ===== src/Db/Rows.antt =====
-- Facts about the rows that the statements of backend/db.go read and write.
use banana_talk.Prelude.{
  ℕ, ◌<◌, String, ◌≡◌, ◌≢◌, refl, sym, ◌∙◌, inl, inr, Bool, true, ◌&&◌, ◌||◌, none, List, [], ◌∷◌,
  ◌==◌, eq_iff, ◌==ℕ◌, length, any, keep_if, Bool-cases, arith, All,
}
use banana_talk.Sql.{User, Report, Block}
use banana_talk.Db.Statements.{
  has_id, has_sub, has_block, first_where, update_where, insert_block_row,
}

has_block-cong :
    (rows : List Block) (a b x y : ℕ) → a ≡ x → b ≡ y → has_block rows a b ≡ has_block rows x y
has_block-cong rows a b x y p q = rw (p, q)

-- A row is added to the blocks, unless it is there already.
pub has_block-insert :
    (a b now x y : ℕ) (rows : List Block)
    → has_block (insert_block_row a b now rows) x y
      ≡ (has_block rows x y || ((a ==ℕ x) && (b ==ℕ y)))
unfolding insert_block_row
has_block-insert a b now x y rows = elim (Bool-cases (has_block rows a b)) [
  | inl old ↦ rw old (ground (arith, old, has_block-cong rows a b x y))
  | inr new ↦ rw new (ground arith)
]

module _ {ℓ} (P : User → Type ℓ) (p : User → Bool) (f : User → User) where
  pub All-update_where :
      (us : List User) → ((u : User) → P u → P (f u)) → All P us → All P (update_where p f us)
  All-update_where [] keep h = tt
  All-update_where (u ∷ us) keep (h, hs) = elim (Bool-cases (p u)) [
    | inl hit ↦ rw hit (keep u h, All-update_where us keep hs)
    | inr miss ↦ rw miss (h, All-update_where us keep hs)
  ]

-- No two users share an id or a google_sub.
abbrev pub Differs : User → User → Type 0
Differs u v = (v.id ≢ u.id) × (v.google_sub ≢ u.google_sub)

abbrev pub Unique : List User → Type 0
Unique [] = Unit
Unique (u ∷ us) = All (Differs u) us × Unique us

-- An update that leaves ids and google_subs alone.
module _ (p : User → Bool) (f : User → User) (same_id : (u : User) → (f u).id ≡ u.id)
    (same_sub : (u : User) → (f u).google_sub ≡ u.google_sub) where
  Differs-update : (u v : User) → Differs u v → Differs u (f v)
  Differs-update u v (i, s) = (λ e. i (sym (same_id v) ∙ e), λ e. s (sym (same_sub v) ∙ e))

  All-Differs-update : (u : User) (us : List User) → All (Differs u) us → All (Differs (f u)) us
  All-Differs-update u [] h = tt
  All-Differs-update u (v ∷ us) ((i, s), hs) =
      ((λ e. i (e ∙ same_id u), λ e. s (e ∙ same_sub u)), All-Differs-update u us hs)

  pub Unique-update_where : (us : List User) → Unique us → Unique (update_where p f us)
  Unique-update_where [] h = tt
  Unique-update_where (u ∷ us) (h, hs) =
      let later = All-update_where (Differs u) p f us (Differs-update u) h in
      elim (Bool-cases (p u)) [
        | inl hit ↦
            rw hit (All-Differs-update u (update_where p f us) later, Unique-update_where us hs)
        | inr miss ↦ rw miss (later, Unique-update_where us hs)
      ]

-- A google_sub that no user has.
pub absent_sub :
    (sub : String) (us : List User)
    → first_where (has_sub sub) us ≡ none
    → All (λ v. v.google_sub ≢ sub) us
absent_sub sub [] h = tt
absent_sub sub (u ∷ us) h = elim (Bool-cases (u.google_sub == sub)) [
  | inl same ↦ absurd (ground (arith, same, h))
  | inr other ↦ (ground (arith, other, eq_iff u.google_sub sub), absent_sub sub us (rw other at h))
]

pub any-has_id-lt :
    (id n : ℕ) (us : List User) → All (λ u. u.id < n) us → any (has_id id) us ≡ true → id < n
any-has_id-lt id n [] h e = absurd (ground arith)
any-has_id-lt id n (u ∷ us) (h, hs) e = ground (arith, any-has_id-lt id n us hs)

-- The reports against a user.
abbrev pub reports_against : ℕ → List Report → ℕ
reports_against id rs = length (keep_if (λ r. r.reported_id ==ℕ id) rs)

pub reports_against-new :
    (n : ℕ) (rs : List Report) → All (λ r. r.reported_id < n) rs → reports_against n rs ≡ 0
reports_against-new n [] h = refl
reports_against-new n (r ∷ rs) (h, hs) = ground (arith, reports_against-new n rs hs)
