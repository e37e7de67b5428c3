-- ===== src/Auth/Verified.antt =====
-- Whom backend/auth.go takes a request to come from.
use banana_talk.Prelude.{
  ℕ, ◌<◌, String, ◌≡◌, ◌≢◌, ◌↔◌, refl, sym, ap, ◌∙◌, inl, inr, Option, none, some, false, ◌==◌,
  eq_iff, ltb, if◌then◌else◌, Bool-cases, arith,
}
use banana_talk.Http.{Request}
use banana_talk.Auth.{Payload, bearer_token, check_payload, verify_token, authenticate}

-- A token for which the validator gives claims that have not expired and name the subject.
abbrev pub Vouches : (String → Option Payload) → ℕ → String → String → Type 0
Vouches validate now token sub =
    (token ≢ "")
    × (sub ≢ "")
    × (p : Payload) × (validate token ≡ some p)
    × (now < p.expires)
    × (p.subject ≡ sub)

some_inj {ℓ} : {A : Type ℓ} {x y : A} → some x ≡ some y → x ≡ y
some_inj {x} e = ap (elim [ none ↦ x | some z ↦ z ]) e

-- What `authenticate` makes of a subject and an error code.
abbrev taken : String × String → Option String
taken (sub, code) = if code == "" then some sub else none

none_ne : {A : Type 0} {x : A} → none ≡ some x → ⊥
none_ne e = cc

module _ (validate : String → Option Payload) (now : ℕ) where
  check_payload-taken :
      (p : Payload) (sub : String)
      → (taken (check_payload validate now (some p)) ≡ some sub)
        ↔ ((sub ≢ "") × (now < p.expires) × (p.subject ≡ sub))
  unfolding check_payload
  check_payload-taken p sub = elim (Bool-cases (ltb now p.expires)) [
    | inr late ↦ rw late (λ e. absurd (none_ne e), λ h. absurd (ground (arith, h)))
    | inl fresh ↦ rw fresh (elim (Bool-cases (p.subject == "")) [
      | inl empty ↦
          rw empty
            (λ e. absurd (none_ne e), λ h. absurd (h.0 (sym h.2 ∙ (eq_iff p.subject "").0 empty)))
      | inr named ↦ rw named (
        λ e.
            let q = some_inj e in
            (λ z. absurd (ground (arith, named, (eq_iff p.subject "").1 (q ∙ z))), ground arith, q),
        λ h. ap some h.2,
      )
    ])
  ]

  -- A request is taken to come from a user exactly if its token is not empty, the validator gives
  -- claims for the token, these have not expired, and they name the user, who is not "".
  pub authenticate-Vouches :
      (r : Request) (sub : String)
      → (authenticate validate now r ≡ some sub) ↔ Vouches validate now (bearer_token r) sub
  unfolding authenticate verify_token
  authenticate-Vouches r sub = elim (Bool-cases (bearer_token r == "")) [
    | inl missing ↦
        rw missing
          (λ e. absurd (none_ne e), λ h. absurd (h.0 ((eq_iff (bearer_token r) "").0 missing)))
    | inr given ↦ rw given (
        go (λ z. ground (arith, given, (eq_iff (bearer_token r) "").1 z))
          (validate (bearer_token r)) refl)
  ]
    where
      go :
          bearer_token r ≢ ""
          → (x : Option Payload) → validate (bearer_token r) ≡ x
          → (taken (check_payload validate now x) ≡ some sub)
            ↔ Vouches validate now (bearer_token r) sub
      go t none e = (
        λ k. absurd (none_ne k),
        λ h. let (_, n, p, has, rest, same) = h in absurd (none_ne (sym e ∙ has)),
      )
      go t (some p) e = (
        λ k.
            let (named, fresh, same) = (check_payload-taken p sub).0 k in
            (t, named, p, e, fresh, same),
        λ h.
            let (_, named, p', has, fresh, same) = h in
            let q = some_inj (sym e ∙ has) in
            (check_payload-taken p sub).1 (named, rw q fresh, ap (λ x. x.subject) q ∙ same),
      )

  -- A token that is verified names a user.
  pub verify_token-ne :
      (token : String) {sub : String} → verify_token validate now token ≡ (sub, "") → sub ≢ ""
  unfolding verify_token check_payload
  verify_token-ne token {sub} h = elim (Bool-cases (token == "")) [
    | inl missing ↦ absurd (
        coded "missing_token" (ground (arith, eq_iff "missing_token" ""))
          (ap (λ q. q.1) (rw missing at h)))
    | inr given ↦ go (validate token) (rw given at h)
  ]
    where
      coded : (code : String) → (code == "") ≡ false → code ≡ "" → ⊥
      coded code other e = absurd (ground (arith, other, (eq_iff code "").1 e))

      go : (x : Option Payload) → check_payload validate now x ≡ (sub, "") → sub ≢ ""
      go none k =
          absurd
            (coded "invalid_token" (ground (arith, eq_iff "invalid_token" "")) (ap (λ q. q.1) k))
      go (some p) k = elim (Bool-cases (ltb now p.expires)) [
        | inr late ↦ absurd (
            coded "token_expired" (ground (arith, eq_iff "token_expired" ""))
              (ap (λ q. q.1) (rw late at k)))
        | inl fresh ↦ elim (Bool-cases (p.subject == "")) [
          | inl empty ↦ absurd (
              coded "invalid_token_claims" (ground (arith, eq_iff "invalid_token_claims" ""))
                (ap (λ q. q.1) (rw (fresh, empty) at k)))
          | inr named ↦ λ z. absurd (
              ground (
                arith,
                named,
                (eq_iff p.subject "").1 (ap (λ q. q.0) (rw (fresh, named) at k) ∙ z),
              ))
        ]
      ]
