-- ===== src/Shutdown/Entered.antt =====
-- What the entry of a client leaves of the table (backend/main.go), for the loops of
-- backend/shutdown.go.
use banana_talk.Prelude.{
  ◌+◌, ◌≤◌, String, ◌≡◌, sym, ◌⊎◌, inl, inr, true, List, ◌==◌, eq_iff, has, length, arith,
  Bool-cases,
}
use banana_talk.Redis.{Redis}
use banana_talk.Backend.{Backend}
use banana_talk.Connection.{register}
use banana_talk.Shutdown.{Phase, pausing, notifying, closing, stopping, past_close}

pub length-past_close :
    (p : Phase) (user : String) (xs : List String) → length (past_close p user xs) ≤ length xs + 1
length-past_close pausing user xs = omega arith
length-past_close (notifying rest) user xs = omega arith
length-past_close (closing rest) user xs = omega arith
length-past_close stopping user xs = omega arith

module _ {r : Redis} where
  pub register-new :
      (user : String) (b : Backend r) (v : String)
      → has (register r user b).clients v ≡ true
      → (v ≡ user) ⊎ (has b.clients v ≡ true)
  unfolding register
  register-new user b v h = elim (Bool-cases (has b.clients user)) [
    | inl again ↦ inr (rw again at h)
    | inr new ↦ elim (Bool-cases (user == v)) [
      | inl same ↦ inl (sym ((eq_iff user v).0 same))
      | inr other ↦ inr (rw (new, other) at h)
    ]
  ]

  pub length-register :
      (user : String) (b : Backend r) → length (register r user b).clients ≤ length b.clients + 1
  unfolding register
  length-register user b = elim (Bool-cases (has b.clients user)) [
    | inl again ↦ rw again (omega arith)
    | inr new ↦ rw new (omega arith)
  ]
