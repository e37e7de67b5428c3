-- ===== src/Shutdown/Covered.antt =====
-- Which users of the table of clients a loop of backend/shutdown.go has still to go through.
use banana_talk.Prelude.{
  ℕ, ◌*◌, ◌≤◌, String, ◌≡◌, refl, sym, ◌⊎◌, inl, inr, true, List, [], ◌∷◌, ◌==◌, eq_iff, has, false,
  length, arith, Bool-cases,
}
use native.Mathlib.Nat.{mul-le-mul_left}
use banana_talk.Connection.{delete_key}
use banana_talk.Shutdown.{Enumerates}

-- Each text in the one list is in the other.
abbrev pub Within : List String → List String → Type 0
Within xs ys = (user : String) → has xs user ≡ true → has ys user ≡ true

pub delete_key-Within : (user : String) (xs : List String) → Within (delete_key user xs) xs
delete_key-Within user [] v h = h
delete_key-Within user (x ∷ xs) v h = elim (Bool-cases (x == user)) [
  | inl same ↦ ground (arith, delete_key-Within user xs v, rw same at h)
  | inr other ↦ ground (arith, delete_key-Within user xs v, rw other at h)
]

pub length-delete_key : (user : String) (xs : List String) → length (delete_key user xs) ≤ length xs
length-delete_key user [] = omega arith
length-delete_key user (x ∷ xs) = elim (Bool-cases (x == user)) [
  | inl same ↦ rw same (omega (arith, length-delete_key user xs))
  | inr other ↦ rw other (omega (arith, length-delete_key user xs))
]

-- The same but for those in `late`.
abbrev pub Besides : List String → List String → List String → Type 0
Besides late xs ys =
    (user : String) → has xs user ≡ true → has late user ≡ false → has ys user ≡ true

-- Out of the users that have an entry in the table and are not late, every one is in one of the two
-- lists.
abbrev pub Covered : List String → List String → List String → List String → Type 0
Covered late clients rest done =
    (user : String)
    → has clients user ≡ true
    → has late user ≡ false
    → (has rest user ≡ true) ⊎ (has done user ≡ true)

pub Covered-next :
    (late clients rest done : List String) (x : String)
    → Covered late clients (x ∷ rest) done
    → Covered late clients rest (x ∷ done)
Covered-next late clients rest done x h user k early = elim (h user k early) [
  | inr d ↦ inr (ground (arith, d))
  | inl r ↦ elim (Bool-cases (x == user)) [
    | inl same ↦ inr (rw same refl)
    | inr other ↦ inl (rw other at r)
  ]
]

pub Covered-all :
    (late clients done : List String) → Covered late clients [] done → Besides late clients done
Covered-all late clients done h user k early = elim (h user k early) [
  | inl none_left ↦ absurd (cc none_left)
  | inr d ↦ d
]

-- A user who has not entered was there before.
pub Before :
    (user : String) (late xs ys : List String)
    → ((v : String) → has ys v ≡ true → (v ≡ user) ⊎ (has xs v ≡ true))
    → (v : String) → has ys v ≡ true
    → has (user ∷ late) v ≡ false
    → (has xs v ≡ true) × (has late v ≡ false)
Before user late xs ys h v k new = elim (Bool-cases (user == v)) [
  | inl same ↦ absurd (ground (arith, rw same at new))
  | inr other ↦ (
    elim (h v k) [
      | inr old ↦ old
      | inl e ↦ absurd (ground (arith, (eq_iff user v).1 (sym e), other))
    ],
    rw other at new,
  )
]

-- The time that the writes to a snapshot take.
pub snapshot_time :
    (w n : ℕ) (list clients : List String)
    → Enumerates list clients
    → length clients ≤ n
    → w * length list ≤ w * n
snapshot_time w n list clients e h = mul-le-mul_left w (rw e.size h)
