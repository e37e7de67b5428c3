-- ===== src/Connection/Restored.antt =====
-- The blocks of a user that are in Redis once a request to /ws of backend/main.go has opened a
-- connection.
use banana_talk.Prelude.{ℕ, String, ◌≡◌, refl, ap, ◌∙◌, Bool, true, false, Option, some, List, has}
use banana_talk.Redis.Commands.{blocks}
use banana_talk.Redis.{Redis, IsUp}
use banana_talk.Matchmaker.{hydrate_blocks}
use banana_talk.Matchmaker.Blocks.{hydrate_blocks-sets}
use banana_talk.Matchmaker.Effects.{add-keys}
use banana_talk.Sql.{Environment, Conn, ok}
use banana_talk.Db.Extends.{id_of}
use banana_talk.Db.Grows.{Grows, upsert_user-Grows, is_user_banned-Grows}
use banana_talk.Db.Lookups.{upsert_user-Found}
use banana_talk.Db.Invariant.{Valid}
use banana_talk.Db.{load_user_blocks}
use banana_talk.Http.{Request}
use banana_talk.Auth.{Payload}
use banana_talk.RateLimit.{Limits, Limiters, Origin}
use banana_talk.Backend.Sound.{BlockedIn, NoPairs, IsSound}
use banana_talk.Backend.{Backend}
use banana_talk.Connection.Admitted.{Cleared, handle_connections-Cleared}
use banana_talk.Connection.Loaded.{load_user_blocks_complete}
use banana_talk.Connection.Kept.{handle_connections-IsSound}
use banana_talk.Connection.{Moment, opened, hydrate, handle_connections}

load_user_blocks-answers :
    (env : Environment) (id : ℕ) (c : Conn)
    → ((n : ℕ) → env.fails n ≡ false)
    → (subs : List String) × (c' : Conn) × (load_user_blocks env id c ≡ (ok subs, c'))
unfolding load_user_blocks
load_user_blocks-answers env id c calm = rw (calm c.step) (_, _, refl)

-- The blocks of one user in a database.
abbrev pub BlocksOf : {r : Redis} → String → Backend r → String → String → Type 0
BlocksOf user b u v = (u ≡ user) × BlockedIn b.conn.tables user v

module _ (r : Redis) (up : IsUp r) where
  open r use {keys}

  module _ (env : Environment) (at : Moment) (calm : (n : ℕ) → env.fails n ≡ false) where
    Cleared-kept :
        (user : String) (b b' : Backend r)
        → Valid b.conn.tables
        → Cleared r env at user b b'
        → (v : String) → BlockedIn b'.conn.tables user v
        → has ((keys b'.store).sets (blocks user)) v ≡ true
    unfolding hydrate
    Cleared-kept user b b' valid p v blocked =
        let (subs, c, loads) = load_user_blocks-answers env p.id p.checked calm in
        let f = upsert_user-Found env user b.conn p.known p.upserted in
        let upserts : Grows b.conn.tables p.known.tables =
          rw (p.upserted) at (upsert_user-Grows env user b.conn) in
        let checks : Grows p.known.tables p.checked.tables =
          rw (p.unbanned) at (is_user_banned-Grows env user p.known) in
        let own = checks.extends.ids user p.id (ap id_of f.row ∙ ap some f.same_id) in
        let tables = rw loads at (p.started.same_conn) in
        let store = rw loads at (p.started.waits) in
        let (restored, others, same_queue) = hydrate_blocks-sets r up user subs b.store in
        rw (store, add-keys r up at.nanoseconds user (hydrate_blocks r user subs b.store))
          (restored v
            ∙ load_user_blocks_complete env user p.id p.checked c
                (checks.valid (upserts.valid valid)) own loads v (rw tables at blocked))

    module _ {interval burst : ℕ} (l : Limits interval burst) (trust_xff : Bool)
        (validate : String → Option Payload) (draining : Bool) where
      pub handle_connections-kept :
          (req : Request) (from : Origin) (b : Backend r) (m : Limiters l) {user : String}
          {b' : Backend r} {m' : Limiters l}
          → handle_connections r env at l trust_xff validate draining req from b m
            ≡ (opened user, b', m')
          → IsSound NoPairs b
          → IsSound (BlocksOf user b') b'
      handle_connections-kept req from b m {user} {b'} h sound =
          let s : IsSound NoPairs b' = rw h at (
            handle_connections-IsSound r up env at l trust_xff validate draining req from b m
              (λ e v g. g) sound) in
          let (serves, allowed, who, p) =
            handle_connections-Cleared r env at l trust_xff validate draining req from b m h in
          record {
            valid = s.valid;
            referenced = s.referenced;
            named = s.named;
            cached = s.cached;
            kept = λ u v (same, blocked). rw same (Cleared-kept user b b' sound.valid p v blocked);
          }
