-- ===== src/Redis.antt =====
-- The Redis service as backend/matchmaker.go uses it. The service and its client are not part of
-- the repository: a `Redis` value stands for them, with one law that gives the documented effect
-- of a command that succeeds. A command may fail, and nothing is assumed of the store after that.
-- Expiry of keys is left out: a time to live is passed on and has no effect.
pub mod Commands
pub mod Memory
use banana_talk.Prelude.{◌≡◌, ap, ◌∙◌}
use banana_talk.Redis.Commands.{Keyspace, Command, Result, value, effect}

-- What a call of the client gives: a value or an error, and the store after the call.
pub data Reply (S : Type 0) (A : Type 0) : Type 0 where
  ok : A → S → Reply S A
  err : S → Reply S A

-- The store after a call whose result the code drops or only logs.
abbrev pub after : {S A : Type 0} → Reply S A → S
after (ok v s) = s
after (err s) = s

abbrev pub value_or : {S A : Type 0} → A → Reply S A → A
value_or d (ok v s) = v
value_or d (err s) = d

pub record Redis : Type 1 where
  pub Store : Type 0
  -- What the keys hold.
  pub keys : Store → Keyspace
  pub run : (c : Command) → Store → Reply Store (Result c)
  -- A command that succeeds returns and does what its documentation says.
  pub run_law :
      (c : Command) (s : Store) (v : Result c) (s' : Store)
      → run c s ≡ ok v s'
      → (v ≡ value c (keys s)) × (keys s' ≡ effect c (keys s))

-- No command fails.
pub record IsUp (r : Redis) : Type 0 where
  pub succeeds :
      (c : Command) (s : r.Store) → (v : Result c) × (s' : r.Store) × (r.run c s ≡ ok v s')

module _ (r : Redis) (up : IsUp r) where
  pub run-value :
      (c : Command) (s : r.Store)
      → (s' : r.Store) × (r.run c s ≡ ok (value c (r.keys s)) s')
        × (r.keys s' ≡ effect c (r.keys s))
  run-value c s =
      let (v, s', e) = up.succeeds c s in
      let (ev, ek) = r.run_law c s v s' e in (s', e ∙ ap (λ w. ok w s') ev, ek)

  -- The same, at the keys that the store is known to hold.
  pub run-at :
      (c : Command) (s : r.Store) {ks : Keyspace}
      → r.keys s ≡ ks
      → (s' : r.Store) × (r.run c s ≡ ok (value c ks) s') × (r.keys s' ≡ effect c ks)
  run-at c s h = rw (← h) (run-value c s)

  pub after-at :
      (c : Command) (s : r.Store) {ks : Keyspace}
      → r.keys s ≡ ks
      → r.keys (after (r.run c s)) ≡ effect c ks
  after-at c s h = let (s', e, ek) = run-at c s h in rw e ek
