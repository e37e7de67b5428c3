-- ===== src/Sql/Laws.antt =====
-- Laws of database statements and transactions: inversion of those that succeed, and what a failed
-- transaction leaves.
use banana_talk.Prelude.{ℕ, ◌+◌, ◌≡◌, refl, sym, ap, ◌∙◌, inl, inr, Bool-cases, arith}
use banana_talk.Sql.{
  Tables, Environment, Conn, Query, DbError, Result, ok, err, ◌>>=◌, proceed, sent, statement,
  rolled_back, finish, transaction, pure,
}

module _ {ℓ κ} {A : Type ℓ} {B : Type κ} where
  proceed-ok :
      (x : Result A) (c1 : Conn) (f : A → Query B) {b : B} {c' : Conn}
      → proceed x f c1 ≡ (ok b, c')
      → (a : A) × (x ≡ ok a) × (f a c1 ≡ (ok b, c'))
  proceed-ok (ok a) c1 f h = (a, refl, h)
  proceed-ok (err e) c1 f h = absurd (ok_ne (ap (λ p. p.0) h))
    where
      ok_ne : {b : B} → err e ≡ ok b → ⊥
      ok_ne p = cc

  -- A block that succeeds went through its first query.
  pub bind-ok :
      (m : Query A) (f : A → Query B) (c : Conn) {b : B} {c' : Conn}
      → (m >>= f) c ≡ (ok b, c')
      → (a : A) × (c1 : Conn) × (m c ≡ (ok a, c1)) × (f a c1 ≡ (ok b, c'))
  bind-ok m f c h =
      let (x, c1) = m c in
      let (a, e, rest) = proceed-ok x c1 f h in (a, c1, ap (λ y. (y, c1)) e, rest)

-- The rows of the three tables are the same.
abbrev pub SameRows : Tables → Tables → Type 0
SameRows s t = (s.users ≡ t.users) × (s.reports ≡ t.reports) × (s.blocks ≡ t.blocks)

-- `m` leaves the counter of user ids alone.
abbrev pub KeepsIds {ℓ} : {A : Type ℓ} → Query A → Type 0
KeepsIds m = (c : Conn) → (m c).1.tables.next_user_id ≡ c.tables.next_user_id

module _ {ℓ} (env : Environment) {A : Type ℓ} where
  -- A statement that succeeds had its effect.
  pub statement-ok :
      (body : ℕ → Tables → Result A × Tables) (c : Conn) {a : A} {c' : Conn}
      → statement env body c ≡ (ok a, c')
      → (body (env.now c.step) c.tables ≡ (ok a, c'.tables)) × (c'.step ≡ c.step + 1)
  statement-ok body c h = elim (Bool-cases (env.fails c.step)) [
    | inl bad ↦ absurd (ground (arith, ap (λ p. p.0) h))
    | inr good ↦ let k = rw good at h in (ap (λ p. (p.0, p.1.tables)) k, ap (λ p. p.1.step) (sym k))
  ]

  -- The same at the head of a block.
  pub statement_then-ok {κ} :
      {B : Type κ} (body : ℕ → Tables → Result A × Tables) (f : A → Query B) (c : Conn) {b : B}
      {c' : Conn}
      → (statement env body >>= f) c ≡ (ok b, c')
      → (a : A) × (c1 : Conn) × (body (env.now c.step) c.tables ≡ (ok a, c1.tables))
        × (c1.step ≡ c.step + 1)
        × (f a c1 ≡ (ok b, c'))
  statement_then-ok body f c h =
      let (a, c1, e, rest) = bind-ok (statement env body) f c h in
      let (did, next) = statement-ok body c e in (a, c1, did, next, rest)

  finish-ok :
      (t : Tables) (x : Result A) (c1 : Conn) {a : A} {c' : Conn}
      → finish env t (x, c1) ≡ (ok a, c')
      → (x ≡ ok a) × (c'.tables ≡ c1.tables)
  finish-ok t (err e) c1 h = absurd (ground (arith, ap (λ p. p.0) h))
  finish-ok t (ok b) c1 h = elim (Bool-cases (env.fails c1.step)) [
    | inl bad ↦ absurd (ground (arith, ap (λ p. p.0) (rw bad at h)))
    | inr good ↦ let k = rw good at h in (ap (λ p. p.0) k, ap (λ p. p.1.tables) (sym k))
  ]

  -- A transaction that succeeds did what its body did.
  pub transaction-ok :
      (body : ℕ → Query A) (c : Conn) {a : A} {c' : Conn}
      → transaction env body c ≡ (ok a, c')
      → (c1 : Conn) × (body (env.now c.step) (sent c) ≡ (ok a, c1)) × (c'.tables ≡ c1.tables)
  transaction-ok body c h = elim (Bool-cases (env.fails c.step)) [
    | inl bad ↦ absurd (ground (arith, ap (λ p. p.0) (rw bad at h)))
    | inr good ↦
        let (x, c1) = body (env.now c.step) (sent c) in
        let (e, same) = finish-ok c.tables x c1 (rw good at h) in (c1, ap (λ y. (y, c1)) e, same)
  ]

  finish-err :
      (t : Tables) (x : Result A) (c1 : Conn) {e : DbError} {c' : Conn}
      → finish env t (x, c1) ≡ (err e, c')
      → c'.tables ≡ (rolled_back env t c1).tables
  finish-err t (err d) c1 h = ap (λ p. p.1.tables) (sym h)
  finish-err t (ok b) c1 h = elim (Bool-cases (env.fails c1.step)) [
    | inl bad ↦ ap (λ p. p.1.tables) (sym (rw bad at h))
    | inr good ↦ absurd (ground (arith, ap (λ p. p.0) (rw good at h)))
  ]

  -- A transaction that fails leaves all rows as they were.
  pub transaction-err :
      (body : ℕ → Query A) (c : Conn) {e : DbError} {c' : Conn}
      → KeepsIds (body (env.now c.step))
      → transaction env body c ≡ (err e, c')
      → SameRows c'.tables c.tables × (c'.tables.next_user_id ≡ c.tables.next_user_id)
  transaction-err body c keeps h = elim (Bool-cases (env.fails c.step)) [
    | inl bad ↦
        let k = ap (λ p. p.1.tables) (sym (rw bad at h)) in
        (
          (ap (λ t. t.users) k, ap (λ t. t.reports) k, ap (λ t. t.blocks) k),
          ap (λ t. t.next_user_id) k,
        )
    | inr good ↦
        let (x, c1) = body (env.now c.step) (sent c) in
        let k = finish-err c.tables x c1 (rw good at h) in
        (
          (ap (λ t. t.users) k, ap (λ t. t.reports) k, ap (λ t. t.blocks) k),
          ap (λ t. t.next_user_id) k ∙ keeps (sent c),
        )
  ]

module _ {ℓ} (env : Environment) where
  pub KeepsIds-pure : {A : Type ℓ} (a : A) → KeepsIds (pure a)
  KeepsIds-pure a c = refl

  pub KeepsIds-statement :
      {A : Type ℓ} (body : ℕ → Tables → Result A × Tables)
      → ((now : ℕ) (t : Tables) → (body now t).1.next_user_id ≡ t.next_user_id)
      → KeepsIds (statement env body)
  KeepsIds-statement body keeps c = elim (Bool-cases (env.fails c.step)) [
    | inl bad ↦ rw bad refl
    | inr good ↦ rw good (keeps (env.now c.step) c.tables)
  ]

proceed-KeepsIds {ℓ κ} :
    {A : Type ℓ} {B : Type κ} (x : Result A) (c1 : Conn) (f : A → Query B) (n : ℕ)
    → c1.tables.next_user_id ≡ n
    → ((a : A) → KeepsIds (f a))
    → (proceed x f c1).1.tables.next_user_id ≡ n
proceed-KeepsIds (ok a) c1 f n h k = k a c1 ∙ h
proceed-KeepsIds (err e) c1 f n h k = h

pub KeepsIds-bind {ℓ κ} :
    {A : Type ℓ} {B : Type κ} (m : Query A) (f : A → Query B)
    → KeepsIds m
    → ((a : A) → KeepsIds (f a))
    → KeepsIds (m >>= f)
KeepsIds-bind m f km kf c =
    let (x, c1) = m c in proceed-KeepsIds x c1 f c.tables.next_user_id (km c) kf

-- A statement at the head of a block.
pub KeepsIds-then {ℓ κ} :
    {A : Type ℓ} {B : Type κ} (env : Environment) (body : ℕ → Tables → Result A × Tables)
    (f : A → Query B)
    → ((now : ℕ) (t : Tables) → (body now t).1.next_user_id ≡ t.next_user_id)
    → ((a : A) → KeepsIds (f a))
    → KeepsIds (statement env body >>= f)
KeepsIds-then env body f kb kf =
    KeepsIds-bind (statement env body) f (KeepsIds-statement env body kb) kf
