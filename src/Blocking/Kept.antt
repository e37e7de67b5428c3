-- ===== src/Blocking/Kept.antt =====
-- The handlers of backend/block.go keep the backend sound, whatever they answer.
use banana_talk.Prelude.{
  ℕ, String, ◌≡◌, ◌≢◌, refl, sym, ap, inl, inr, Option, none, some, List, ◌==◌, eq_iff, Bool-cases,
  arith,
}
use banana_talk.Redis.{Redis, IsUp}
use banana_talk.Matchmaker.{add_block}
use banana_talk.Sql.{Tables, Environment, Conn, Result, ok, err, no_rows, failed, ◌>>=◌, attempt}
use banana_talk.Db.{upsert_user, get_user_id_by_google_sub, insert_block}
use banana_talk.Db.Extends.{id_of}
use banana_talk.Db.Grows.{
  Grows, Grows-refl, Grows-then, GrowsTables, upsert_user-Grows, insert_block-Grows,
  get_user_id_by_google_sub-Grows, load_user_blocks-Grows,
}
use banana_talk.Http.{Request}
use banana_talk.Auth.{Payload, authenticate}
use banana_talk.Strings.{trim_space}
use banana_talk.Backend.Sound.{
  BlockedIn, Sound-Grows, Sound-conn, IsSound, add_block-Sound, known_or_stub-Grows,
}
use banana_talk.Backend.{Backend, known_or_stub}
use banana_talk.Blocking.Stored.{Linked, block_queries-Linked}
use banana_talk.Blocking.{
  block_queries, list_of, block_list, record_block, block_user, block_body, block_by, block_handler,
  write_blocks, list_by, blocks_handler,
}

Linked-forth : (a b : String) (t : Tables) → Linked a b t → BlockedIn t a b
Linked-forth a b t p = record {
  blocker = p.first.id;
  target = p.second.id;
  blocker_row = ap id_of p.first_row;
  target_row = ap id_of p.second_row;
  row = p.forth;
}

Linked-back : (a b : String) (t : Tables) → Linked a b t → BlockedIn t b a
Linked-back a b t p = record {
  blocker = p.second.id;
  target = p.first.id;
  blocker_row = ap id_of p.second_row;
  target_row = ap id_of p.first_row;
  row = p.back;
}

module _ (env : Environment) where
  block_queries-Grows : (a b : String) → GrowsTables (block_queries env a b)
  unfolding block_queries
  block_queries-Grows a b =
      Grows-then (upsert_user env a)
        (λ blocker. known_or_stub env b >>= λ j. insert_block env blocker.0 j)
        (upsert_user-Grows env a)
        (λ blocker.
          Grows-then (known_or_stub env b) (insert_block env blocker.0) (known_or_stub-Grows env b)
            (insert_block-Grows env blocker.0))

  list_of-Grows : (x : Result ℕ) → GrowsTables (list_of env x)
  unfolding list_of
  list_of-Grows (ok id) = load_user_blocks-Grows env id
  list_of-Grows (err no_rows) = λ c. Grows-refl c.tables
  list_of-Grows (err failed) = λ c. Grows-refl c.tables

  block_list-Grows : (sub : String) → GrowsTables (block_list env sub)
  unfolding block_list
  block_list-Grows sub =
      Grows-then (attempt (get_user_id_by_google_sub env sub)) (list_of env)
        (get_user_id_by_google_sub-Grows env sub) list_of-Grows

module _ {G : String → String → Type 0} (r : Redis) (up : IsUp r) (env : Environment)
    (validate : String → Option Payload) (now : ℕ) where
  record_block-IsSound :
      (a s : String) (b : Backend r) (x : Result (Unit {0})) (c : Conn)
      → a ≢ s
      → block_queries env a s b.conn ≡ (x, c)
      → Grows b.conn.tables c.tables
      → IsSound G b
      → IsSound G (record_block r env validate now a s b (x, c)).1
  unfolding record_block
  record_block-IsSound a s b (err e) c ne k g h = Sound-conn b c g h
  record_block-IsSound a s b (ok tt) c ne k g h =
      let p = block_queries-Linked env a s b.conn c ne k in
      add_block-Sound r up s a (add_block r a s b.store) (Linked-back a s c.tables p)
        (add_block-Sound r up a s b.store (Linked-forth a s c.tables p) (Sound-Grows g h))

  block_user-IsSound :
      (a s : String) (b : Backend r)
      → IsSound G b
      → IsSound G (block_user r env validate now a s b).1
  unfolding block_user
  block_user-IsSound a s b h = elim (Bool-cases (s == "")) [
    | inl empty ↦ rw empty h
    | inr named ↦ elim (Bool-cases (s == a)) [
      | inl self ↦ rw (named, self) h
      | inr other ↦
          let (x, c) = block_queries env a s b.conn in
          rw (named, other)
            (record_block-IsSound a s b x c
              (λ e. absurd (ground (arith, other, (eq_iff s a).1 (sym e)))) refl
              (block_queries-Grows env a s b.conn) h)
    ]
  ]

  block_by-IsSound :
      (x : Option String) (body : Option String) (b : Backend r)
      → IsSound G b
      → IsSound G (block_by r env validate now x body b).1
  unfolding block_by block_body
  block_by-IsSound none body b h = h
  block_by-IsSound (some a) none b h = h
  block_by-IsSound (some a) (some text) b h = block_user-IsSound a (trim_space text) b h

  pub block_handler-IsSound :
      (req : Request) (body : Option String) (b : Backend r)
      → IsSound G b
      → IsSound G (block_handler r env validate now req body b).1
  unfolding block_handler
  block_handler-IsSound req body b h = elim (Bool-cases (req.method == "POST")) [
    | inl post ↦ rw post (block_by-IsSound (authenticate validate now req) body b h)
    | inr wrong ↦ rw wrong h
  ]

  write_blocks-IsSound :
      (b : Backend r) (x : Result (List String)) (c : Conn)
      → Grows b.conn.tables c.tables
      → IsSound G b
      → IsSound G (write_blocks r env validate now b (x, c)).1
  unfolding write_blocks
  write_blocks-IsSound b (ok subs) c g h = Sound-conn b c g h
  write_blocks-IsSound b (err e) c g h = Sound-conn b c g h

  list_by-IsSound :
      (x : Option String) (b : Backend r)
      → IsSound G b
      → IsSound G (list_by r env validate now x b).1
  unfolding list_by
  list_by-IsSound none b h = h
  list_by-IsSound (some sub) b h =
      let (x, c) = block_list env sub b.conn in
      write_blocks-IsSound b x c (block_list-Grows env sub b.conn) h

  pub blocks_handler-IsSound :
      (req : Request) (b : Backend r)
      → IsSound G b
      → IsSound G (blocks_handler r env validate now req b).1
  unfolding blocks_handler
  blocks_handler-IsSound req b h = elim (Bool-cases (req.method == "GET")) [
    | inl get ↦ rw get (list_by-IsSound (authenticate validate now req) b h)
    | inr wrong ↦ rw wrong h
  ]
