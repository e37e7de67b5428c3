-- ===== src/Redis/Memory.antt =====
-- A Redis that is its keyspace: it shows that the law and the assumption that no command fails can
-- be met, and runs the model at concrete inputs.
use mathlib.Core.Path.{◌≡◌, refl}
use banana_talk.Prelude.{none, [], ap, sym}
use banana_talk.Redis.Commands.{Keyspace, Command, Result, value, effect}
use banana_talk.Redis.{Reply, Redis, IsUp, ok, value_or, after}

pub memory_law :
    (c : Command) (s : Keyspace) (v : Result c) (s' : Keyspace)
    → ◌≡◌ {A = Reply Keyspace (Result c)} (ok (value c s) (effect c s)) (ok v s')
    → (v ≡ value c s) × (s' ≡ effect c s)
memory_law c s v s' e = (ap (value_or v) (sym e), ap after (sym e))

abbrev pub memory : Redis
memory = record {
  Store = Keyspace;
  keys = λ s. s;
  run = λ c s. ok (value c s) (effect c s);
  run_law = memory_law;
}

pub memory-IsUp : IsUp memory
memory-IsUp = record { succeeds = λ c s. (value c s, effect c s, refl) }

abbrev pub empty : Keyspace
empty = record {
  lists = λ k. [];
  hashes = λ k f. none;
  sets = λ k. [];
  strings = λ k. none;
  published = [];
}
