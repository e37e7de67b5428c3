-- ===== src/Matchmaker/Drain.antt =====
-- What one cycle of `processMatches` (backend/matchmaker.go) does to the waiting list, as a
-- relation: which pairs leave it, what is left, and how many candidate pairs are put back.
use mathlib.Core.List.{Perm, perm_append_comm}
use mathlib.Core.List.Perm
use banana_talk.Prelude.{
  ℕ, suc, ◌≤◌, ◌<◌, String, ◌≡◌, refl, ap, ◌⊎◌, inl, inr, Bool, true, false, List, [], ◌∷◌, ◌++◌,
  arith, length, has, All, All-append, eq_refl,
}

-- `Drain blocked n q ms l k`: with at most n rejections allowed, the list q gives the matches ms
-- and leaves l, after k rejections. A rejected pair goes to the end of the list.
pub data Drain (blocked : String → String → Bool)
    : ℕ → List String → List (String × String) → List String → ℕ → Type 0 where
  short : {n : ℕ} {q : List String} → length q < 2 → Drain blocked n q [] q 0
  spent : {q : List String} → Drain blocked 0 q [] q 0
  matched :
      {n k : ℕ} {a b : String} {q l : List String} {ms : List (String × String)}
      → blocked a b ≡ false
      → Drain blocked n q ms l k
      → Drain blocked n (a ∷ b ∷ q) ((a, b) ∷ ms) l k
  rejected :
      {n k : ℕ} {a b : String} {q l : List String} {ms : List (String × String)}
      → blocked a b ≡ true
      → Drain blocked n (q ++ a ∷ b ∷ []) ms l k
      → Drain blocked (suc n) (a ∷ b ∷ q) ms l (suc k)

-- The users of a list of pairs, in order.
abbrev pub members : List (String × String) → List String
members [] = []
members ((a, b) ∷ ms) = a ∷ b ∷ members ms

-- Every two neighbours of the list, taken in twos, are a blocked pair.
abbrev pub IsAllBlocked : (String → String → Bool) → List String → Type 0
IsAllBlocked blocked [] = Unit
IsAllBlocked blocked (a ∷ []) = ⊥
IsAllBlocked blocked (a ∷ b ∷ q) = (blocked a b ≡ true) × IsAllBlocked blocked q

IsAllBlocked-rotate :
    (blocked : String → String → Bool) (q : List String) {a b : String}
    → blocked a b ≡ true
    → IsAllBlocked blocked q
    → IsAllBlocked blocked (q ++ a ∷ b ∷ [])
IsAllBlocked-rotate blocked [] e h = (e, tt)
IsAllBlocked-rotate blocked (c ∷ []) e h = absurd h
IsAllBlocked-rotate blocked (c ∷ d ∷ q) e h = (h.0, IsAllBlocked-rotate blocked q e h.1)

module _ {blocked : String → String → Bool} where
  pub Drain-perm :
      {n k : ℕ} {q l : List String} {ms : List (String × String)}
      → Drain blocked n q ms l k
      → Perm q (members ms ++ l)
  Drain-perm (short h) = Perm.rfl
  Drain-perm spent = Perm.rfl
  Drain-perm (matched {a} {b} e d) = Perm.cons a (Perm.cons b (Drain-perm d))
  Drain-perm (rejected {a} {b} {q} e d) =
      Perm.trans (perm_append_comm (a ∷ b ∷ []) q) (Drain-perm d)

  pub Drain-unblocked :
      {n k : ℕ} {q l : List String} {ms : List (String × String)}
      → Drain blocked n q ms l k
      → All (λ m. blocked m.0 m.1 ≡ false) ms
  Drain-unblocked (short h) = tt
  Drain-unblocked spent = tt
  Drain-unblocked (matched e d) = (e, Drain-unblocked d)
  Drain-unblocked (rejected e d) = Drain-unblocked d

  -- What holds of all that wait holds of those that are left.
  pub Drain-All :
      {n k : ℕ} {q l : List String} {ms : List (String × String)} (P : String → Type 0)
      → Drain blocked n q ms l k
      → All P q
      → All P l
  Drain-All P (short h) a = a
  Drain-All P spent a = a
  Drain-All P (matched e d) (x, (y, a)) = Drain-All P d a
  Drain-All P (rejected {a = u} {b = v} {q} e d) (x, (y, a)) =
      Drain-All P d (All-append P q (u ∷ v ∷ []) a (x, (y, tt)))

  -- No pair is turned down where no two that wait are a blocked pair.
  pub Drain-free :
      {n k : ℕ} {q l : List String} {ms : List (String × String)}
      → Drain blocked n q ms l k
      → ((a b : String) → has q a ≡ true → has q b ≡ true → blocked a b ≡ false)
      → k ≡ 0
  Drain-free (short h) free = refl
  Drain-free spent free = refl
  Drain-free (matched e d) free =
      Drain-free d (λ x y hx hy. free x y (ground (arith, hx)) (ground (arith, hy)))
  Drain-free (rejected {a} {b} e d) free =
      absurd (ground (arith, e, free a b (rw (eq_refl a) refl) (rw (eq_refl b) (ground arith))))

  -- The cycle ends because fewer than two users wait, or because the rejections are used up.
  pub Drain-ends :
      {n k : ℕ} {q l : List String} {ms : List (String × String)}
      → Drain blocked n q ms l k
      → (k ≤ n) × ((length l < 2) ⊎ (k ≡ n))
  Drain-ends (short h) = (omega arith, inl h)
  Drain-ends spent = (omega arith, inr refl)
  Drain-ends (matched e d) = Drain-ends d
  Drain-ends (rejected e d) = ground (arith, Drain-ends d)

  -- With no rejection the users are matched in the order in which they wait.
  pub Drain-fifo :
      {n k : ℕ} {q l : List String} {ms : List (String × String)}
      → Drain blocked n q ms l k
      → k ≡ 0
      → q ≡ members ms ++ l
  Drain-fifo (short h) z = refl
  Drain-fifo spent z = refl
  Drain-fifo (matched {a} {b} e d) z = ap (λ r. a ∷ b ∷ r) (Drain-fifo d z)
  Drain-fifo (rejected e d) z = absurd (omega arith)

  -- A list of blocked neighbours is only turned round: nobody in it is matched.
  pub Drain-starves :
      {n k : ℕ} {q l : List String} {ms : List (String × String)}
      → Drain blocked n q ms l k
      → IsAllBlocked blocked q
      → (ms ≡ []) × IsAllBlocked blocked l
  Drain-starves (short h) p = (refl, p)
  Drain-starves spent p = (refl, p)
  Drain-starves (matched e d) p = absurd (ground (arith, e, p.0))
  Drain-starves (rejected {q} e d) p = Drain-starves d (IsAllBlocked-rotate blocked q e p.1)

  -- If no two users have blocked each other, nothing is rejected.
  pub Drain-all_free :
      {n k : ℕ} {q l : List String} {ms : List (String × String)}
      → ((a b : String) → blocked a b ≡ false)
      → Drain blocked n q ms l k
      → k ≡ 0
  Drain-all_free free (short h) = refl
  Drain-all_free free spent = refl
  Drain-all_free free (matched e d) = Drain-all_free free d
  Drain-all_free free (rejected {a} {b} e d) = absurd (ground (arith, e, free a b))
