-- ===== src/Matchmaker/Blocks.antt =====
-- The block sets of backend/matchmaker.go: `HydrateBlocks`, `AddBlock` and `ClearBlocks`, and when
-- a new block is seen by the matching loop.
use banana_talk.Prelude.{
  ◌⊎◌, true, String, ◌≡◌, ◌≢◌, refl, ap, sym, ◌∙◌, inl, inr, not, List, [], ◌∷◌, ◌||◌, ◌==◌, eq_iff,
  eq_refl, eq_false_of_ne, if◌then◌else◌, has, Bool-cases, arith,
}
use banana_talk.Redis.Commands.{
  Key, queue, blocks, update, add_member, del_key, add_members, expire, exists, sadd, exec,
  is_empty,
}
use banana_talk.Redis.{Redis, IsUp, run-at, after-at}
use banana_talk.Matchmaker.{blocks_ttl, hydrate_blocks, add_block}
use banana_talk.Matchmaker.Effects.{is_blocked}

has-add_member :
    (xs ys : List String) (z : String) → has (add_member xs ys) z ≡ (has xs z || has ys z)
has-add_member xs [] z = ground arith
has-add_member xs (y ∷ ys) z = ground (
  arith,
  has-add_member (if has xs y then xs else y ∷ xs) ys z,
  eq_iff y z,
  λ (e : y ≡ z). ap (has xs) e,
)

-- A block set after AddBlock: a user without a block set gets none.
grown : String → List String → List String
grown blocked [] = []
grown blocked (x ∷ xs) = add_member (x ∷ xs) (blocked ∷ [])

pub with_block : String → String → (Key → List String) → Key → List String
with_block blocker blocked f =
    if is_empty (f (blocks blocker))
    then f
    else update f (blocks blocker) (add_member (f (blocks blocker)) (blocked ∷ []))

with_block-at :
    (u v w : String) (f : Key → List String)
    → with_block u v f (blocks w) ≡ (if w == u then grown v (f (blocks u)) else f (blocks w))
unfolding with_block grown
with_block-at u v w f = go (f (blocks u)) refl
  where
    go :
        (l : List String)
        → f (blocks u) ≡ l
        → with_block u v f (blocks w) ≡ (if w == u then grown v (f (blocks u)) else f (blocks w))
    go [] e = elim (Bool-cases (w == u)) [
      | inl same ↦ rw same (rw e (ap (λ k. f (blocks k)) ((eq_iff w u).0 same) ∙ e))
      | inr other ↦ rw other (rw e refl)
    ]
    go (x ∷ xs) e = rw e refl

has-grown : (v : String) (l : List String) → has (grown v l) v ≡ (has l v || not (is_empty l))
unfolding grown
has-grown v [] = refl
has-grown v (x ∷ xs) = has-add_member (x ∷ xs) (v ∷ []) v ∙ rw (eq_refl v) (ground arith)

has-grown_cases :
    (v z : String) (l : List String) → has (grown v l) z ≡ true → (z ≡ v) ⊎ (has l z ≡ true)
unfolding grown
has-grown_cases v z [] e = inr e
has-grown_cases v z (x ∷ xs) e = ground (arith, e, has-add_member (x ∷ xs) (v ∷ []) z, eq_iff v z)

has-grown_old : (v z : String) (l : List String) → has l z ≡ true → has (grown v l) z ≡ true
unfolding grown
has-grown_old v z [] e = e
has-grown_old v z (x ∷ xs) e = has-add_member (x ∷ xs) (v ∷ []) z ∙ rw e refl

-- AddBlock removes no member.
pub has-with_block_old :
    (a b u v : String) (f : Key → List String)
    → has (f (blocks u)) v ≡ true
    → has (with_block a b f (blocks u)) v ≡ true
has-with_block_old a b u v f e = elim (Bool-cases (u == a)) [
  | inr other ↦ rw (with_block-at a b u f, other) e
  | inl same ↦
      rw (with_block-at a b u f, same)
        (has-grown_old b v (f (blocks a))
          (ap (λ w. has (f (blocks w)) v) (sym ((eq_iff u a).0 same)) ∙ e))
]

-- A member after one AddBlock is the new one or was one before.
pub has-with_block :
    (a b u v : String) (f : Key → List String)
    → has (with_block a b f (blocks u)) v ≡ true
    → ((u ≡ a) × (v ≡ b)) ⊎ (has (f (blocks u)) v ≡ true)
has-with_block a b u v f e = elim (Bool-cases (u == a)) [
  | inr other ↦ inr (rw (with_block-at a b u f, other) at e)
  | inl same ↦
      let e' = (eq_iff u a).0 same in
      elim (has-grown_cases b v (f (blocks a)) (rw (with_block-at a b u f, same) at e)) [
        | inl new ↦ inl (e', new)
        | inr old ↦ inr (rw e' old)
      ]
]

-- What both calls of AddBlock in a handler make of the question whether the pair is blocked.
both_blocked :
    (f : Key → List String) (a b : String)
    → a ≢ b
    → is_blocked (with_block b a (with_block a b f)) a b
      ≡ (is_blocked f a b || not (is_empty (f (blocks a))) || not (is_empty (f (blocks b))))
both_blocked f a b ne =
    rw
      (
        with_block-at b a a,
        with_block-at b a b,
        with_block-at a b a,
        with_block-at a b b,
        eq_refl a,
        eq_refl b,
        eq_false_of_ne a b ne,
        eq_false_of_ne b a (λ e. ne (sym e)),
      )
      (rw (has-grown b (f (blocks a)), has-grown a (f (blocks b))) (ground arith))

module _ (r : Redis) (up : IsUp r) where
  open r use {Store, keys}

  -- While no Redis command fails: after HydrateBlocks the block set of the user holds the given users and no other, whatever it held
  -- before; the block sets of all other users, the queue and the sessions are as before.
  pub hydrate_blocks-sets :
      (user : String) (subs : List String) (s : Store)
      → let ks = keys (hydrate_blocks r user subs s) in
        ((z : String) → has (ks.sets (blocks user)) z ≡ has subs z)
        × ((v : String) → v ≢ user → ks.sets (blocks v) ≡ (keys s).sets (blocks v))
        × (ks.lists queue ≡ (keys s).lists queue)
  unfolding hydrate_blocks
  hydrate_blocks-sets user [] s =
      let k = after-at r up (exec (del_key (blocks user) ∷ [])) s refl in
      (
        λ z. rw k (rw (eq_refl user) refl),
        λ v ne. rw k (rw (eq_false_of_ne v user ne) refl),
        rw k refl,
      )
  hydrate_blocks-sets user (sub ∷ subs) s =
      let k =
        after-at r up
          (exec (
            del_key (blocks user)
            ∷ add_members (blocks user) (sub ∷ subs)
            ∷ expire (blocks user) blocks_ttl
            ∷ []))
          s refl in
      (
        λ z. rw k (rw (eq_refl user) (has-add_member [] (sub ∷ subs) z)),
        λ v ne. rw k (rw (eq_false_of_ne v user ne) refl),
        rw k refl,
      )

  pub add_block-sets :
      (blocker blocked : String) (s : Store)
      → (keys (add_block r blocker blocked s)).sets ≡ with_block blocker blocked (keys s).sets
  unfolding add_block with_block
  add_block-sets blocker blocked s =
      let (s1, e, k) = run-at r up (exists (blocks blocker)) s refl in
      elim (Bool-cases (is_empty ((keys s).sets (blocks blocker)))) [
        | inl offline ↦ rw (e, add_block) (rw offline (ap (λ x. x.sets) k))
        | inr online ↦
            rw (e, add_block)
              (rw online
                (ap (λ x. x.sets) (after-at r up (sadd (blocks blocker) (blocked ∷ [])) s1 k)))
      ]

  -- While no Redis command fails and the two users differ, both calls of AddBlock make the matching loop turn the pair down
  -- exactly if it did so before or one of the two had a block set: a user who is connected and
  -- whose set is empty has no key in Redis, and counts as offline.
  pub add_block-is_blocked :
      (a b : String) (s : Store)
      → a ≢ b
      → is_blocked (keys (add_block r b a (add_block r a b s))).sets a b ≡ (
          is_blocked (keys s).sets a b
          || not (is_empty ((keys s).sets (blocks a)))
          || not (is_empty ((keys s).sets (blocks b))))
  add_block-is_blocked a b s ne =
      rw (add_block-sets b a (add_block r a b s), add_block-sets a b s)
        (both_blocked (keys s).sets a b ne)
