-- ===== src/Blocking/Stored.antt =====
-- What POST /block of backend/block.go leaves in the database, and what GET /blocks lists then.
use banana_talk.Prelude.{
  ℕ, String, ◌≡◌, ◌≢◌, refl, sym, ap, ◌∙◌, inl, inr, true, Option, none, some, ◌==◌, eq_iff,
  Bool-cases, arith,
}
use banana_talk.Sql.{User, Tables, Environment, Conn, Result, ok, err, ◌>>=◌}
use banana_talk.Sql.Laws.{bind-ok}
use banana_talk.Redis.{Redis}
use banana_talk.Matchmaker.{add_block}
use banana_talk.Db.Statements.{has_block, has_sub, first_where, insert_block_row}
use banana_talk.Db.Rows.{has_block-insert}
use banana_talk.Db.Lookups.{row_of, upsert_user-Found, insert_block-ok}
use banana_talk.Db.{upsert_user, insert_block}
use banana_talk.Http.{Request, error, blocked}
use banana_talk.Auth.{Payload, authenticate}
use banana_talk.Strings.{trim_space}
use banana_talk.Backend.Known.{known_or_stub-Found}
use banana_talk.Backend.{Backend, known_or_stub}
use banana_talk.Blocking.{
  block_queries, record_block, block_user, block_body, block_by, block_handler,
}

-- The two users have rows, and blocks of each other.
pub record Linked (a b : String) (t : Tables) : Type 0 where
  pub first : User
  pub second : User
  pub first_row : row_of a t ≡ some first
  pub second_row : row_of b t ≡ some second
  pub forth : has_block t.blocks first.id second.id ≡ true
  pub back : has_block t.blocks second.id first.id ≡ true

-- Both rows of a block are there once they are inserted.
pub both_rows :
    (a b now : ℕ) (t t' : Tables)
    → t' ≡ record t { blocks = insert_block_row b a now (insert_block_row a b now t.blocks) }
    → (has_block t'.blocks a b ≡ true) × (has_block t'.blocks b a ≡ true)
both_rows a b now t t' e = (
  rw (e, has_block-insert b a now a b (insert_block_row a b now t.blocks))
      (rw (has_block-insert a b now a b t.blocks) (ground arith)),
  rw (e, has_block-insert b a now b a (insert_block_row a b now t.blocks)) (ground arith),
)

module _ (env : Environment) where
  pub block_queries-Linked :
      (a b : String) (c c' : Conn) {u : Unit {0}}
      → a ≢ b
      → block_queries env a b c ≡ (ok u, c')
      → Linked a b c'.tables
  unfolding block_queries
  block_queries-Linked a b c c' ne h =
      let (p, c1, e1, r1) =
        bind-ok (upsert_user env a)
          (λ blocker. known_or_stub env b >>= λ j. insert_block env blocker.0 j) c h in
      let (j, c2, e2, r2) = bind-ok (known_or_stub env b) (insert_block env p.0) c1 r1 in
      let f1 = upsert_user-Found env a c c1 e1 in
      let f2 = known_or_stub-Found env b c1 c2 e2 in
      let (differ, now, et) = insert_block-ok env p.0 j c2 c' r2 in
      let (forth, back) = both_rows p.0 j now c2.tables c'.tables et in
      let rows = ap (λ t. t.users) et in
      record {
        first = f1.user;
        second = f2.user;
        first_row = ap (first_where (has_sub a)) rows ∙ f2.others a ne ∙ f1.row;
        second_row = ap (first_where (has_sub b)) rows ∙ f2.row;
        forth = rw (f1.same_id, f2.same_id) forth;
        back = rw (f1.same_id, f2.same_id) back;
      }

error_ne : {n : ℕ} {code message : String} → error n code message ≡ blocked → ⊥
error_ne e = cc

module _ (r : Redis) (env : Environment) (validate : String → Option Payload) (now : ℕ) where
  -- The database calls succeed, and both calls of AddBlock follow.
  abbrev Done : String → String → Backend r → Backend r → Type 0
  Done blocker text b b' =
      (c : Conn) × (block_queries env blocker text b.conn ≡ (ok tt, c))
      × (b' ≡ record b {
        conn = c;
        store = add_block r text blocker (add_block r blocker text b.store);
      })

  record_block-Done :
      (blocker text : String) (b b' : Backend r) (x : Result (Unit {0})) (c : Conn)
      → block_queries env blocker text b.conn ≡ (x, c)
      → record_block r env validate now blocker text b (x, c) ≡ (blocked, b')
      → Done blocker text b b'
  unfolding record_block
  record_block-Done blocker text b b' (err e) c k h = absurd (error_ne (ap (λ p. p.0) h))
  record_block-Done blocker text b b' (ok tt) c k h = (c, k, sym (ap (λ p. p.1) h))

  block_user-Done :
      (blocker text : String) (b b' : Backend r)
      → block_user r env validate now blocker text b ≡ (blocked, b')
      → (text ≢ "") × (blocker ≢ text) × Done blocker text b b'
  unfolding block_user
  block_user-Done blocker text b b' h = elim (Bool-cases (text == "")) [
    | inl empty ↦ absurd (error_ne (ap (λ p. p.0) (rw empty at h)))
    | inr named ↦ elim (Bool-cases (text == blocker)) [
      | inl self ↦ absurd (error_ne (ap (λ p. p.0) (rw (named, self) at h)))
      | inr other ↦
          let (x, c) = block_queries env blocker text b.conn in
          (
            ground (arith, named, eq_iff text ""),
            λ e. absurd (ground (arith, other, (eq_iff text blocker).1 (sym e))),
            record_block-Done blocker text b b' x c refl (rw (named, other) at h),
          )
    ]
  ]

  -- What an accepted request has done.
  abbrev pub Accepted : String → Option String → Backend r → Backend r → Type 0
  Accepted blocker body b b' =
      (text : String) × (body ≡ some text)
      × (trim_space text ≢ "")
      × (blocker ≢ trim_space text)
      × (block_queries env blocker (trim_space text) b.conn ≡ (ok tt, b'.conn))
      × Linked blocker (trim_space text) b'.conn.tables
      × (b' ≡ record b {
        conn = b'.conn;
        store =
            add_block r (trim_space text) blocker (add_block r blocker (trim_space text) b.store);
      })

  block_body-Accepted :
      (blocker : String) (body : Option String) (b b' : Backend r)
      → block_body r env validate now blocker body b ≡ (blocked, b')
      → Accepted blocker body b b'
  unfolding block_body
  block_body-Accepted blocker none b b' h = absurd (error_ne (ap (λ p. p.0) h))
  block_body-Accepted blocker (some text) b b' h =
      let (named, other, (c, did, e)) = block_user-Done blocker (trim_space text) b b' h in
      (
        text,
        refl,
        named,
        other,
        did ∙ ap (λ d. (ok tt, d.conn)) (sym e),
        rw e (block_queries-Linked env blocker (trim_space text) b.conn c other did),
        e ∙ rw e refl,
      )

  -- A request to block that is answered with success comes from a user other than the one it names,
  -- who is not "". After it both users have rows in the database and blocks of each other, and both
  -- calls of AddBlock are made in Redis; nothing else of the backend has changed.
  pub block_handler-Linked :
      (req : Request) (body : Option String) (b : Backend r) {b' : Backend r}
      → block_handler r env validate now req body b ≡ (blocked, b')
      → (blocker : String) × (authenticate validate now req ≡ some blocker)
        × Accepted blocker body b b'
  unfolding block_handler block_by
  block_handler-Linked req body b {b'} h = elim (Bool-cases (req.method == "POST")) [
    | inr wrong ↦ absurd (error_ne (ap (λ p. p.0) (rw wrong at h)))
    | inl post ↦ go (authenticate validate now req) refl (rw post at h)
  ]
    where
      go :
          (x : Option String)
          → authenticate validate now req ≡ x
          → block_by r env validate now x body b ≡ (blocked, b')
          → (blocker : String) × (authenticate validate now req ≡ some blocker)
            × Accepted blocker body b b'
      go none e k = absurd (error_ne (ap (λ p. p.0) k))
      go (some sub) e k = (sub, e, block_body-Accepted sub body b b' k)
