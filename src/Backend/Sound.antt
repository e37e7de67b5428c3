-- ===== src/Backend/Sound.antt =====
-- What ties Redis to the database: the block sets that the matchmaker reads (backend/matchmaker.go)
-- have only blocks of the table (backend/db.go), and each waiting user has a name.
use banana_talk.Prelude.{
  ℕ, String, ◌≡◌, ◌≢◌, refl, sym, ap, ◌∙◌, inl, inr, true, some, List, [], ◌∷◌, ◌==◌, eq_iff, has,
  All, All-append, Bool-cases, arith,
}
use banana_talk.Redis.Commands.{Keyspace, queue, blocks, exists, sadd, is_empty}
use banana_talk.Redis.{Redis, IsUp, run-at, after-at}
use banana_talk.Matchmaker.{add_block, hydrate_blocks, add}
use banana_talk.Matchmaker.Effects.{add-keys}
use banana_talk.Matchmaker.Blocks.{
  has-with_block, has-with_block_old, hydrate_blocks-sets, add_block-sets,
}
use banana_talk.Sql.{Tables, Environment, Conn, Result, ok, err, no_rows, failed, pure, attempt}
use banana_talk.Db.{upsert_user, get_user_id_by_google_sub}
use banana_talk.Backend.{Backend, stub_id, stub, known_or_stub}
use banana_talk.Db.Statements.{has_block}
use banana_talk.Db.Invariant.{Valid}
use banana_talk.Db.References.{Referenced}
use banana_talk.Db.Lookups.{row_of}
use banana_talk.Db.Extends.{id_of, Extends}
use banana_talk.Db.Grows.{
  Grows, Grows-refl, Grows-pure, Grows-then, GrowsTables, upsert_user-Grows,
  get_user_id_by_google_sub-Grows,
}

-- Both users have rows, and the first has blocked the second.
pub record BlockedIn (t : Tables) (u v : String) : Type 0 where
  pub blocker : ℕ
  pub target : ℕ
  pub blocker_row : id_of (row_of u t) ≡ some blocker
  pub target_row : id_of (row_of v t) ≡ some target
  pub row : has_block t.blocks blocker target ≡ true

pub BlockedIn-Extends :
    {s t : Tables} (u v : String) → Extends s t → BlockedIn s u v → BlockedIn t u v
BlockedIn-Extends u v x p = record {
  blocker = p.blocker;
  target = p.target;
  blocker_row = x.ids u p.blocker p.blocker_row;
  target_row = x.ids v p.target p.target_row;
  row = x.blocks p.blocker p.target p.row;
}

-- `G` has the blocks that must be in Redis.
pub record Sound (G : String → String → Type 0) (t : Tables) (ks : Keyspace) : Type 0 where
  pub valid : Valid t
  pub referenced : Referenced t
  pub named : All (λ u. u ≢ "") (ks.lists queue)
  pub cached : (u v : String) → has (ks.sets (blocks u)) v ≡ true → BlockedIn t u v
  pub kept : (u v : String) → G u v → has (ks.sets (blocks u)) v ≡ true

pub Sound-Grows :
    {G : String → String → Type 0} {s t : Tables} {ks : Keyspace}
    → Grows s t
    → Sound G s ks
    → Sound G t ks
Sound-Grows g h = record {
  valid = g.valid h.valid;
  referenced = g.referenced h.referenced;
  named = h.named;
  cached = λ u v e. BlockedIn-Extends u v g.extends (h.cached u v e);
  kept = h.kept;
}

-- The queue and the block sets are all that counts of the keys.
pub Sound-keys :
    {G : String → String → Type 0} {t : Tables} {ks : Keyspace} (ks' : Keyspace)
    → All (λ u. u ≢ "") (ks'.lists queue)
    → ((u v : String) → has (ks'.sets (blocks u)) v ≡ true → has (ks.sets (blocks u)) v ≡ true)
    → ((u v : String)
        → G u v
        → has (ks.sets (blocks u)) v ≡ true
        → has (ks'.sets (blocks u)) v ≡ true)
    → Sound G t ks
    → Sound G t ks'
Sound-keys ks' named fewer more h = record {
  valid = h.valid;
  referenced = h.referenced;
  named = named;
  cached = λ u v e. h.cached u v (fewer u v e);
  kept = λ u v g. more u v g (h.kept u v g);
}

module _ (r : Redis) (up : IsUp r) where
  open r use {Store, keys}

  add_block-queue :
      (a b : String) (s : Store) → (keys (add_block r a b s)).lists queue ≡ (keys s).lists queue
  unfolding add_block
  add_block-queue a b s =
      let (s1, e, k) = run-at r up (exists (blocks a)) s refl in
      elim (Bool-cases (is_empty ((keys s).sets (blocks a)))) [
        | inl offline ↦ rw (e, add_block) (rw offline (ap (λ x. x.lists queue) k))
        | inr online ↦
            rw (e, add_block)
              (rw online (ap (λ x. x.lists queue) (after-at r up (sadd (blocks a) (b ∷ [])) s1 k)))
      ]

  pub add_block-Sound :
      {G : String → String → Type 0} {t : Tables} (a b : String) (s : Store)
      → BlockedIn t a b
      → Sound G t (keys s)
      → Sound G t (keys (add_block r a b s))
  add_block-Sound a b s p h = record {
    valid = h.valid;
    referenced = h.referenced;
    named = rw (add_block-queue a b s) h.named;
    cached = λ u v e.
        elim (has-with_block a b u v (keys s).sets (rw (add_block-sets r up a b s) at e)) [
          | inl (first, second) ↦ rw (first, second) p
          | inr old ↦ h.cached u v old
        ];
    kept = λ u v g.
        rw (add_block-sets r up a b s) (has-with_block_old a b u v (keys s).sets (h.kept u v g));
  }

  pub hydrate_blocks-Sound :
      {G : String → String → Type 0} {t : Tables} (user : String) (subs : List String) (s : Store)
      → ((v : String) → has subs v ≡ true → BlockedIn t user v)
      → ((v : String) → BlockedIn t user v → has subs v ≡ true)
      → Sound G t (keys s)
      → Sound G t (keys (hydrate_blocks r user subs s))
  hydrate_blocks-Sound user subs s listed complete h =
      let (own, others, same_queue) = hydrate_blocks-sets r up user subs s in
      record {
        valid = h.valid;
        referenced = h.referenced;
        named = rw same_queue h.named;
        cached = λ u v e. elim (Bool-cases (u == user)) [
          | inl same ↦ let w = (eq_iff u user).0 same in rw w (listed v (sym (own v) ∙ (rw w at e)))
          | inr other ↦ h.cached u v (
              sym (
                ap (λ l. has l v)
                  (others u (λ w. absurd (ground (arith, (eq_iff u user).1 w, other)))))
              ∙ e)
        ];
        kept = λ u v g. elim (Bool-cases (u == user)) [
          | inl same ↦
              let w = (eq_iff u user).0 same in
              rw w (own v ∙ complete v (rw w at (h.cached u v (h.kept u v g))))
          | inr other ↦
              ap (λ l. has l v)
                (others u (λ w. absurd (ground (arith, (eq_iff u user).1 w, other))))
              ∙ h.kept u v g
        ];
      }

  pub add-Sound :
      {G : String → String → Type 0} {t : Tables} (now : ℕ) (user : String) (s : Store)
      → user ≢ ""
      → Sound G t (keys s)
      → Sound G t (keys (add r now user s))
  add-Sound now user s ne h = rw (add-keys r up now user s) (
      Sound-keys _ (All-append (λ u. u ≢ "") ((keys s).lists queue) (user ∷ []) h.named (ne, tt))
        (λ u v e. e) (λ u v g e. e) h)

-- No block need be in Redis.
abbrev pub NoPairs : String → String → Type 0
NoPairs u v = ⊥

abbrev pub IsSound : (String → String → Type 0) → {r : Redis} → Backend r → Type 0
IsSound G {r} b = Sound G b.conn.tables (r.keys b.store)

-- The database calls of a handler alone.
pub Sound-conn :
    {G : String → String → Type 0} {r : Redis} (b : Backend r) (c : Conn)
    → Grows b.conn.tables c.tables
    → IsSound G b
    → IsSound G (record b { conn = c })
Sound-conn b c g h = Sound-Grows g h

module _ (env : Environment) (sub : String) where
  stub_id-Grows : GrowsTables (stub_id env sub)
  unfolding stub_id
  stub_id-Grows =
      Grows-then (upsert_user env sub) (λ found. pure found.0) (upsert_user-Grows env sub)
        (λ p. Grows-pure p.0)

  stub-Grows : (x : Result ℕ) → GrowsTables (stub env sub x)
  unfolding stub
  stub-Grows (ok id) = Grows-pure id
  stub-Grows (err no_rows) = stub_id-Grows
  stub-Grows (err failed) = λ c. Grows-refl c.tables

  pub known_or_stub-Grows : GrowsTables (known_or_stub env sub)
  unfolding known_or_stub
  known_or_stub-Grows =
      Grows-then (attempt (get_user_id_by_google_sub env sub)) (stub env sub)
        (get_user_id_by_google_sub-Grows env sub) stub-Grows
