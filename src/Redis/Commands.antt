-- ===== src/Redis/Commands.antt =====
-- The keys of backend/matchmaker.go, lines 13 to 18, the commands that the backend sends, and what
-- the documentation of Redis says that each returns and does.
use banana_talk.Prelude.{
  ℕ, String, Bool, true, false, not, Option, none, some, List, [], ◌∷◌, ◌++◌, map, ◌==◌,
  if◌then◌else◌, length, keep_if, has,
}

-- A key or channel, by the prefix constant of the source and the user that is appended to it.
pub data Key : Type 0 where
  queue trigger enqueued_at : Key
  session notify blocks : String → Key

abbrev pub key_eq : Key → Key → Bool
key_eq queue queue = true
key_eq trigger trigger = true
key_eq enqueued_at enqueued_at = true
key_eq (session u) (session v) = u == v
key_eq (notify u) (notify v) = u == v
key_eq (blocks u) (blocks v) = u == v
key_eq _ _ = false

-- A value in a hash: the decimal text of a 64-bit number, or any other text.
pub data HashValue : Type 0 where
  int_text : ℕ → HashValue
  other_text : String → HashValue

-- A set exists exactly while it has a member. `exists` is asked of the keys of sets only.
pub record Keyspace : Type 0 where
  pub lists : Key → List String
  pub hashes : Key → String → Option HashValue
  pub sets : Key → List String
  pub strings : Key → Option String
  pub published : List (Key × String)

-- The commands of a transaction.
pub data Write : Type 0 where
  del_key : Key → Write
  add_members : Key → List String → Write
  expire : Key → ℕ → Write

pub data Command : Type 0 where
  rpush : Key → List String → Command
  lrem : Key → String → Command
  llen lpop : Key → Command
  hset : Key → String → HashValue → Command
  hdel hmget : Key → List String → Command
  exists del : Key → Command
  sadd : Key → List String → Command
  sismember : Key → String → Command
  set : Key → String → ℕ → Command
  publish : Key → String → Command
  exec : List Write → Command
  ping : Command

abbrev pub Result : Command → Type 0
Result (hmget k fs) = List (Option HashValue)
Result (lpop k) = Option String
Result (exists k) = Bool
Result (sismember k m) = Bool
Result (rpush k xs) = ℕ
Result (llen k) = ℕ
Result _ = Unit

abbrev pub update {ℓ} : {A : Type ℓ} → (Key → A) → Key → A → Key → A
update f k a j = if key_eq j k then a else f j

abbrev pub add_member : List String → List String → List String
add_member xs [] = xs
add_member xs (y ∷ ys) = add_member (if has xs y then xs else y ∷ xs) ys

abbrev pub drop_key : Key → Keyspace → Keyspace
drop_key k s = record {
  lists = update s.lists k [];
  hashes = update s.hashes k (λ f. none);
  sets = update s.sets k [];
  strings = update s.strings k none;
  published = s.published;
}

abbrev pub write : Write → Keyspace → Keyspace
write (del_key k) s = drop_key k s
write (add_members k xs) s = record s { sets = update s.sets k (add_member (s.sets k) xs) }
write (expire k ttl) s = s

abbrev pub write_all : List Write → Keyspace → Keyspace
write_all [] s = s
write_all (w ∷ ws) s = write_all ws (write w s)

abbrev head? : List String → Option String
head? [] = none
head? (x ∷ xs) = some x

abbrev rest : List String → List String
rest [] = []
rest (x ∷ xs) = xs

abbrev pub is_empty : List String → Bool
is_empty [] = true
is_empty (x ∷ xs) = false

-- What a successful command returns.
abbrev pub value : (c : Command) → Keyspace → Result c
value (rpush k xs) s = length (s.lists k ++ xs)
value (llen k) s = length (s.lists k)
value (lpop k) s = head? (s.lists k)
value (hmget k fs) s = map (s.hashes k) fs
value (exists k) s = not (is_empty (s.sets k))
value (sismember k m) s = has (s.sets k) m
value (lrem k x) s = tt
value (hset k f v) s = tt
value (hdel k fs) s = tt
value (del k) s = tt
value (sadd k xs) s = tt
value (set k v ttl) s = tt
value (publish k m) s = tt
value (exec ws) s = tt
value ping s = tt

-- What a successful command does.
abbrev pub effect : Command → Keyspace → Keyspace
effect (rpush k xs) s = record s { lists = update s.lists k (s.lists k ++ xs) }
effect (lrem k x) s = record s {
  lists = update s.lists k (keep_if (λ y. not (y == x)) (s.lists k));
}
effect (lpop k) s = record s { lists = update s.lists k (rest (s.lists k)) }
effect (hset k f v) s = record s {
  hashes = update s.hashes k (λ g. if g == f then some v else s.hashes k g);
}
effect (hdel k fs) s = record s {
  hashes = update s.hashes k (λ g. if has fs g then none else s.hashes k g);
}
effect (del k) s = drop_key k s
effect (sadd k xs) s = write (add_members k xs) s
effect (set k v ttl) s = record s { strings = update s.strings k (some v) }
effect (publish k m) s = record s { published = s.published ++ (k, m) ∷ [] }
effect (exec ws) s = write_all ws s
effect _ s = s
