-- ===== src/Connection/Left.antt =====
-- What the cleanup of a connection of backend/main.go leaves of its user.
use banana_talk.Prelude.{
  String, ◌≡◌, ◌≢◌, refl, ap, ◌∙◌, inl, inr, false, not, none, List, [], ◌∷◌, ◌==◌, eq_refl,
  eq_false_of_ne, has, keep_if, Bool-cases,
}
use banana_talk.Redis.Commands.{queue, session, blocks, enqueued_at, del, lrem, hdel, effect}
use banana_talk.Redis.{Redis, IsUp}
use banana_talk.Matchmaker.{remove, delete_session}
use banana_talk.Matchmaker.Effects.{remove-keys, delete_session-keys, clear_blocks-keys}
use banana_talk.Backend.{Backend}
use banana_talk.Connection.{delete_key, leave}

has-keep_if :
    (user : String) (xs : List String) → has (keep_if (λ y. not (y == user)) xs) user ≡ false
has-keep_if user [] = refl
has-keep_if user (x ∷ xs) = elim (Bool-cases (x == user)) [
  | inl same ↦ rw same (has-keep_if user xs)
  | inr other ↦ rw other (rw other (has-keep_if user xs))
]

has-delete_key : (user : String) (xs : List String) → has (delete_key user xs) user ≡ false
has-delete_key user [] = refl
has-delete_key user (x ∷ xs) = elim (Bool-cases (x == user)) [
  | inl same ↦ rw same (has-delete_key user xs)
  | inr other ↦ rw other (rw other (has-delete_key user xs))
]

module _ (r : Redis) (up : IsUp r) where
  open r use {keys}

  pub leave-keys :
      (user : String) (b : Backend r)
      → keys (leave r user b).store
        ≡ effect (del (blocks user)) (
            effect
              (del (session user))
              (effect (hdel enqueued_at (user ∷ [])) (effect (lrem queue user) (keys b.store))))
  unfolding leave
  leave-keys user b =
      clear_blocks-keys r up user (delete_session r user (remove r user b.store))
      ∙ ap (effect (del (blocks user))) (
          delete_session-keys r up user (remove r user b.store)
          ∙ ap (effect (del (session user))) (remove-keys r up user b.store))

  pub leave-queue :
      (user : String) (b : Backend r)
      → (keys (leave r user b).store).lists queue
        ≡ keep_if (λ y. not (y == user)) ((keys b.store).lists queue)
  leave-queue user b = rw (leave-keys user b) refl

  leave-clients : (user : String) (b : Backend r) → has (leave r user b).clients user ≡ false
  unfolding leave
  leave-clients user b = has-delete_key user b.clients

  -- After the cleanup of any one connection of a user, while no Redis command fails, the user waits no
  -- more, has no session, no blocks in Redis and no entry in the table of clients, even if another
  -- connection of the user is still open; the sessions and blocks of all others are as before.
  pub leave-has :
      (user : String) (b : Backend r)
      → let ks = keys (leave r user b).store in
        (has (ks.lists queue) user ≡ false)
        × (ks.strings (session user) ≡ none)
        × (ks.sets (blocks user) ≡ [])
        × (has (leave r user b).clients user ≡ false)
        × ((v : String) → v ≢ user → ks.strings (session v) ≡ (keys b.store).strings (session v))
        × ((v : String) → v ≢ user → ks.sets (blocks v) ≡ (keys b.store).sets (blocks v))
  leave-has user b =
      let k = leave-keys user b in
      (
        rw k (has-keep_if user ((keys b.store).lists queue)),
        rw k (rw (eq_refl user) refl),
        rw k (rw (eq_refl user) refl),
        leave-clients user b,
        λ v ne. rw k (rw (eq_false_of_ne v user ne) refl),
        λ v ne. rw k (rw (eq_false_of_ne v user ne) refl),
      )
