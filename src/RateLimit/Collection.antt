-- ===== src/RateLimit/Collection.antt =====
-- Deleting idle limiters (`gcLoop` of backend/ratelimit.go) changes no answer.
use banana_talk.Prelude.{
  ℕ, ◌+◌, ◌-◌, ◌*◌, ◌≤◌, String, ◌≡◌, refl, sym, ap, ◌∙◌, inl, inr, Bool, Option, none, some, List,
  [], ◌∷◌, ◌==◌, ltb, Bool-cases, arith,
}
use banana_talk.RateLimit.{
  ip_limiter_idle_ttl, Limits, Origin, client_ip, IpLimiter, Limiters, put, get, allow_ip, allow,
  kept, collect,
}

-- A request that asks, and a tick of the collection, each with its time.
pub data Event : Type 0 where
  asks : Origin → ℕ → Event
  ticks : ℕ → Event

-- The same requests without collections.
abbrev pub without : List Event → List Event
without [] = []
without (asks o t ∷ es) = asks o t ∷ without es
without (ticks t ∷ es) = without es

-- No event is earlier than the one before, nor than `now`.
abbrev pub InOrder : ℕ → List Event → Type 0
InOrder now [] = Unit
InOrder now (asks o t ∷ es) = (now ≤ t) × InOrder t es
InOrder now (ticks t ∷ es) = (now ≤ t) × InOrder t es

module _ {interval burst : ℕ} (l : Limits interval burst) (trust_xff : Bool) where
  open l use {Limiter, new_limiter, allows}

  -- The answers to the requests.
  abbrev pub answers : List Event → Limiters l → List Bool
  answers [] m = []
  answers (asks o t ∷ es) m = let (answer, m') = allow l o trust_xff t m in answer ∷ answers es m'
  answers (ticks t ∷ es) m = answers es (collect l t m)

  -- The limiter was asked last when it was seen last.
  abbrev IsSeen : IpLimiter l → Type 0
  IsSeen e = (before : Limiter) × (e.limiter ≡ (allows e.last_seen before).1)

  -- What a map with collections and one without have for an IP.
  data Alike (now : ℕ) : Option (IpLimiter l) → Option (IpLimiter l) → Type 0 where
    missing : Alike now none none
    present : {e : IpLimiter l} → IsSeen e → Alike now (some e) (some e)
    dropped :
        {e : IpLimiter l}
        → IsSeen e
        → e.last_seen + ip_limiter_idle_ttl ≤ now
        → Alike now none (some e)

  Alike-later :
      {now later : ℕ} {x y : Option (IpLimiter l)} → now ≤ later → Alike now x y → Alike later x y
  Alike-later h missing = missing
  Alike-later h (present s) = present s
  Alike-later h (dropped s old) = dropped s (omega (arith, h, old))

  Alike-kept :
      {now later : ℕ} {x y : Option (IpLimiter l)}
      → now ≤ later
      → Alike now x y
      → Alike later (kept l (later - ip_limiter_idle_ttl) x) y
  unfolding kept
  Alike-kept h missing = missing
  Alike-kept {later} h (present {e} s) =
      elim (Bool-cases (ltb e.last_seen (later - ip_limiter_idle_ttl))) [
        | inl old ↦ rw old (dropped s (ground (arith, old)))
        | inr young ↦ rw young (present s)
      ]
  Alike-kept h (dropped s old) = dropped s (omega (arith, h, old))

  module _ (short : interval * burst ≤ ip_limiter_idle_ttl) where
    -- Both maps give the same answer and leave the limiter in the same state.
    Alike-allows :
        {now later : ℕ} {x y : Option (IpLimiter l)}
        → now ≤ later
        → Alike now x y
        → allows later (get l x) ≡ allows later (get l y)
    unfolding get
    Alike-allows h missing = refl
    Alike-allows h (present s) = refl
    Alike-allows {later} h (dropped {e} (before, s) old) =
        sym
          (ap (allows later) s ∙ l.refills before e.last_seen later (omega (arith, short, h, old)))

    abbrev AllAlike : ℕ → Limiters l → Limiters l → Type 0
    AllAlike now m n = (ip : String) → Alike now (m ip) (n ip)

    put-AllAlike :
        (ip : String) {e : IpLimiter l} {now later : ℕ} (m n : Limiters l)
        → now ≤ later
        → IsSeen e
        → AllAlike now m n
        → AllAlike later (put l ip e m) (put l ip e n)
    put-AllAlike ip m n h s k other = elim (Bool-cases (other == ip)) [
      | inl same ↦ rw same (present s)
      | inr free ↦ rw free (Alike-later h (k other))
    ]

    allow-AllAlike :
        (o : Origin) (now later : ℕ) (m n : Limiters l)
        → now ≤ later
        → AllAlike now m n
        → ((allow l o trust_xff later m).0 ≡ (allow l o trust_xff later n).0)
          × AllAlike later (allow l o trust_xff later m).1 (allow l o trust_xff later n).1
    unfolding allow allow_ip
    allow-AllAlike o now later m n h k = elim (Bool-cases (client_ip o trust_xff == "")) [
      | inl unknown ↦ rw unknown (refl, λ ip. Alike-later h (k ip))
      | inr known ↦
          let ip = client_ip o trust_xff in
          let same = Alike-allows h (k ip) in
          rw known (ap (λ p. p.0) same, rw same (put-AllAlike ip m n h (get l (n ip), refl) k))
    ]

    collect-AllAlike :
        (now later : ℕ) (m n : Limiters l)
        → now ≤ later
        → AllAlike now m n
        → AllAlike later (collect l later m) n
    unfolding collect
    collect-AllAlike now later m n h k ip = Alike-kept h (k ip)

    answers-AllAlike :
        (es : List Event) (now : ℕ) (m n : Limiters l)
        → InOrder now es
        → AllAlike now m n
        → answers es m ≡ answers (without es) n
    answers-AllAlike [] now m n h k = refl
    answers-AllAlike (asks o t ∷ es) now m n (h, hs) k =
        let (same, later) = allow-AllAlike o now t m n h k in
        rw (
          same,
          answers-AllAlike es t (allow l o trust_xff t m).1 (allow l o trust_xff t n).1 hs later,
        )
    answers-AllAlike (ticks t ∷ es) now m n (h, hs) k =
        answers-AllAlike es t (collect l t m) n hs (collect-AllAlike now t m n h k)

  -- If a bucket refills within 10 minutes, the collection of idle limiters changes no answer: events
  -- in order of time that start from no limiters get the same answers as the requests alone.
  pub answers-without :
      (es : List Event)
      → interval * burst ≤ ip_limiter_idle_ttl
      → InOrder 0 es
      → answers es (λ ip. none) ≡ answers (without es) (λ ip. none)
  answers-without es short h =
      answers-AllAlike short es 0 (λ ip. none) (λ ip. none) h (λ ip. missing)
