-- ===== src/Sql/Advances.antt =====
-- The counter of report ids never goes back, not even in a transaction that is rolled back.
use native.Mathlib.Nat.{le_trans, le_refl}
use banana_talk.Prelude.{ℕ, ◌≤◌, inl, inr, Bool-cases}
use banana_talk.Sql.{
  Tables, Environment, Conn, Query, Result, ok, err, ◌>>=◌, proceed, sent, statement, finish,
  transaction,
}

abbrev pub Advances {ℓ} : {A : Type ℓ} → Query A → Type 0
Advances m = (c : Conn) → c.tables.next_report_id ≤ (m c).1.tables.next_report_id

module _ {ℓ} (env : Environment) {A : Type ℓ} where
  pub Advances-statement :
      (body : ℕ → Tables → Result A × Tables)
      → ((now : ℕ) (t : Tables) → t.next_report_id ≤ (body now t).1.next_report_id)
      → Advances (statement env body)
  Advances-statement body grows c = elim (Bool-cases (env.fails c.step)) [
    | inl bad ↦ rw bad (le_refl c.tables.next_report_id)
    | inr good ↦ rw good (grows (env.now c.step) c.tables)
  ]

  finish-Advances :
      (t : Tables) (x : Result A) (c : Conn)
      → c.tables.next_report_id ≤ (finish env t (x, c)).1.tables.next_report_id
  finish-Advances t (err e) c = le_refl c.tables.next_report_id
  finish-Advances t (ok a) c = elim (Bool-cases (env.fails c.step)) [
    | inl bad ↦ rw bad (le_refl c.tables.next_report_id)
    | inr good ↦ rw good (le_refl c.tables.next_report_id)
  ]

  pub Advances-transaction :
      (body : ℕ → Query A) → ((now : ℕ) → Advances (body now)) → Advances (transaction env body)
  Advances-transaction body grows c = elim (Bool-cases (env.fails c.step)) [
    | inl bad ↦ rw bad (le_refl c.tables.next_report_id)
    | inr good ↦
        let (x, c1) = body (env.now c.step) (sent c) in
        rw good (le_trans (grows (env.now c.step) (sent c)) (finish-Advances c.tables x c1))
  ]

proceed-Advances {ℓ κ} :
    {A : Type ℓ} {B : Type κ} (x : Result A) (c1 : Conn) (f : A → Query B)
    → ((a : A) → Advances (f a))
    → c1.tables.next_report_id ≤ (proceed x f c1).1.tables.next_report_id
proceed-Advances (ok a) c1 f grows = grows a c1
proceed-Advances (err e) c1 f grows = le_refl c1.tables.next_report_id

-- A statement at the head of a block.
pub Advances-then {ℓ κ} :
    {A : Type ℓ} {B : Type κ} (env : Environment) (body : ℕ → Tables → Result A × Tables)
    (f : A → Query B)
    → ((now : ℕ) (t : Tables) → t.next_report_id ≤ (body now t).1.next_report_id)
    → ((a : A) → Advances (f a))
    → Advances (statement env body >>= f)
Advances-then env body f first grows c =
    let (x, c1) = statement env body c in
    le_trans (Advances-statement env body first c) (proceed-Advances x c1 f grows)
