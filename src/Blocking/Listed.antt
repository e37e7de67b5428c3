-- ===== src/Blocking/Listed.antt =====
-- A block made by POST /block of backend/block.go is listed by GET /blocks to both users.
use banana_talk.Prelude.{
  ℕ, ◌+◌, String, ◌≡◌, ap, subst, true, false, Option, some, List, has, eq_iff,
}
use banana_talk.Sql.{Tables, Environment, Conn, ok, sent, ◌>>=◌}
use banana_talk.Redis.{Redis}
use banana_talk.Db.Statements.{has_sub, blocked_subs}
use banana_talk.Db.Rows.{Unique}
use banana_talk.Db.Listing.{first_where-holds, first_where-has_id, has-blocked_subs, All-Unit}
use banana_talk.Db.Lookups.{get_user_id_by_google_sub-finds, load_user_blocks-lists}
use banana_talk.Db.Invariant.{Valid}
use banana_talk.Db.Calls.{upserts, blocks_pair, perform-Valid}
use banana_talk.Db.{upsert_user, insert_block}
use banana_talk.Sql.Laws.{bind-ok}
use banana_talk.Backend.Known.{known_or_stub-Valid}
use banana_talk.Http.{Request, blocked}
use banana_talk.Auth.{Payload, authenticate}
use banana_talk.Strings.{trim_space}
use banana_talk.Backend.{Backend, known_or_stub}
use banana_talk.Blocking.Stored.{Linked, block_handler-Linked}
use banana_talk.Blocking.{block_queries, list_of, block_list, block_handler}

swapped : {a b : String} {t : Tables} → Linked a b t → Linked b a t
swapped l = record {
  first = l.second;
  second = l.first;
  first_row = l.second_row;
  second_row = l.first_row;
  forth = l.back;
  back = l.forth;
}

module _ (env : Environment) where
  -- The list of `a` names `b`.
  abbrev pub Lists : String → String → Conn → Type 0
  Lists a b c = (subs : List String) × ((block_list env a c).0 ≡ ok subs) × (has subs b ≡ true)

  block_list-Lists :
      (a b : String) (c : Conn)
      → Unique c.tables.users
      → env.fails c.step ≡ false
      → env.fails (c.step + 1) ≡ false
      → Linked a b c.tables
      → Lists a b c
  unfolding block_list list_of
  block_list-Lists a b c unique up1 up2 l =
      let us = c.tables.users in
      let named = first_where-holds (has_sub b) (λ u. Unit {0}) us l.second_row (All-Unit us) in
      (
        blocked_subs l.first.id us c.tables.blocks,
        rw (get_user_id_by_google_sub-finds env a c up1 l.first_row, block_list)
            (ap (λ p. p.0) (load_user_blocks-lists env l.first.id (sent c) up2)),
        subst (λ s. has (blocked_subs l.first.id us c.tables.blocks) s ≡ true)
            ((eq_iff l.second.google_sub b).0 named.0)
            (has-blocked_subs l.first.id l.second.id us c.tables.blocks
              (first_where-has_id b us unique l.second_row) l.forth),
      )

  block_queries-Valid :
      (a b : String) (c c' : Conn) {u : Unit {0}}
      → Valid c.tables
      → block_queries env a b c ≡ (ok u, c')
      → Valid c'.tables
  unfolding block_queries
  block_queries-Valid a b c c' v h =
      let (p, c1, e1, r1) =
        bind-ok (upsert_user env a)
          (λ blocker. known_or_stub env b >>= λ j. insert_block env blocker.0 j) c h in
      let (j, c2, e2, r2) = bind-ok (known_or_stub env b) (insert_block env p.0) c1 r1 in
      let v1 = rw (ap (λ q. q.1) e1) at (perform-Valid env (upserts a) c v) in
      let v2 = rw (ap (λ q. q.1) e2) at (known_or_stub-Valid env b c1 v1) in
      rw (ap (λ q. q.1) r2) at (perform-Valid env (blocks_pair p.0 j) c2 v2)

module _ (r : Redis) (env : Environment) (validate : String → Option Payload) (now : ℕ) where
  -- After a request to block that is answered with success, on tables that are valid and while the
  -- next two statements do not fail, the blocks of either user, as GET /blocks loads them, name the
  -- other one.
  pub block_handler-listed :
      (req : Request) (body : Option String) (b : Backend r) {b' : Backend r}
      → Valid b.conn.tables
      → block_handler r env validate now req body b ≡ (blocked, b')
      → env.fails b'.conn.step ≡ false
      → env.fails (b'.conn.step + 1) ≡ false
      → (blocker : String) × (text : String) × (authenticate validate now req ≡ some blocker)
        × (body ≡ some text)
        × Lists env blocker (trim_space text) b'.conn
        × Lists env (trim_space text) blocker b'.conn
  block_handler-listed req body b {b'} v h up1 up2 =
      let (blocker, who, (text, given, named, other, did, l, e)) =
        block_handler-Linked r env validate now req body b h in
      let unique =
        (block_queries-Valid env blocker (trim_space text) b.conn b'.conn v did).unique in
      (
        blocker,
        text,
        who,
        given,
        block_list-Lists env blocker (trim_space text) b'.conn unique up1 up2 l,
        block_list-Lists env (trim_space text) blocker b'.conn unique up1 up2 (swapped l),
      )
