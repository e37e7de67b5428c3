-- ===== src/RateLimit/Bucket.antt =====
-- A token bucket that shows that the law for buckets can be met, and runs the limiter of
-- backend/ratelimit.go at concrete inputs.
use banana_talk.Prelude.{
  ℕ, ◌+◌, ◌-◌, ◌*◌, ◌/◌, ◌≤◌, ◌≡◌, refl, Bool, leb, ltb, if◌then◌else◌, arith,
}
use banana_talk.RateLimit.{ws_connections_per_minute, minute, Limits}

-- The credit after a time, in nanoseconds.
abbrev pub filled : ℕ → ℕ → ℕ → ℕ
filled cap credit time = if ltb cap (credit + time) then cap else credit + time

abbrev pub taken : ℕ → ℕ → ℕ → Bool × (ℕ × ℕ)
taken interval now credit =
    (leb interval credit, (if leb interval credit then credit - interval else credit, now))

filled-full : (cap credit time : ℕ) → cap ≤ time → filled cap credit time ≡ cap
filled-full cap credit time h = ground (arith, h)

abbrev pub interval : ℕ
interval = minute / ws_connections_per_minute

abbrev pub cap : ℕ
cap = interval * ws_connections_per_minute

pub refills_law :
    (l : ℕ × ℕ) (s t : ℕ)
    → s + cap ≤ t
    → taken interval t (filled cap (taken interval s (filled cap l.0 (s - l.1))).1.0 (t - s))
      ≡ taken interval t (filled cap cap (t - 0))
refills_law l s t h =
    rw
      (
        filled-full cap (taken interval s (filled cap l.0 (s - l.1))).1.0 (t - s)
            (omega (arith, h)),
        filled-full cap cap (t - 0) (omega (arith, h)),
      )
      refl

abbrev pub bucket : Limits interval ws_connections_per_minute
bucket = record {
  Limiter = ℕ × ℕ;
  new_limiter = (cap, 0);
  allows = λ now b. taken interval now (filled cap b.0 (now - b.1));
  refills = refills_law;
}
