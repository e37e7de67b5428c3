-- ===== src/Shutdown/Drained.antt =====
-- The backend after `gracefulShutdown` of backend/shutdown.go and the cleanup of the connections that
-- it closed.
use banana_talk.Prelude.{
  ℕ, ◌≤◌, String, ◌≡◌, ◌≢◌, length, refl, sym, ◌∙◌, inl, inr, Bool, true, false, Option, none, List,
  [], ◌∷◌, ◌==◌, eq_iff, eq_refl, has, keep_if, Bool-cases, arith,
}
use banana_talk.Redis.Commands.{queue, session, blocks}
use banana_talk.Redis.{Redis, IsUp}
use banana_talk.Sql.{Environment}
use banana_talk.Auth.{Payload}
use banana_talk.RateLimit.{Limits}
use banana_talk.Backend.{Backend}
use banana_talk.Connection.{leave}
use banana_talk.Connection.Left.{leave-has, leave-queue}
use banana_talk.Shutdown.Covered.{Within, delete_key-Within}
use banana_talk.Shutdown.Progress.{Reach-Stopped}
use banana_talk.Shutdown.{stopping, Server, mark_unready, leave_all, Reach}

none_has : (xs : List String) → ((user : String) → has xs user ≡ false) → xs ≡ []
none_has [] h = refl
none_has (x ∷ xs) h = absurd (true_ne (sym (rw (eq_refl x) refl) ∙ h x))
  where
    true_ne : true ≡ false → ⊥
    true_ne e = cc e

keep_if-Within : (p : String → Bool) (xs : List String) → Within (keep_if p xs) xs
keep_if-Within p [] v h = h
keep_if-Within p (x ∷ xs) v h = elim (Bool-cases (p x)) [
  | inl kept ↦ ground (arith, keep_if-Within p xs v, rw kept at h)
  | inr dropped ↦ ground (arith, keep_if-Within p xs v, rw dropped at h)
]

Within-not :
    (xs ys : List String) (user : String) → Within xs ys → has ys user ≡ false → has xs user ≡ false
Within-not xs ys user w h = elim (Bool-cases (has xs user)) [
  | inl found ↦ absurd (cc (w user found, h))
  | inr e ↦ e
]

module _ {r : Redis} where
  open r use {keys}

  -- Nothing is left of a user.
  pub record Gone (user : String) (b : Backend r) : Type 0 where
    pub waits_not : has ((keys b.store).lists queue) user ≡ false
    pub no_session : (keys b.store).strings (session user) ≡ none
    pub no_blocks : (keys b.store).sets (blocks user) ≡ []
    pub no_entry : has b.clients user ≡ false

  leave-Within : (user : String) (b : Backend r) → Within (leave r user b).clients b.clients
  unfolding leave
  leave-Within user b = delete_key-Within user b.clients

  module _ (up : IsUp r) where
    leave-Gone : (user : String) (b : Backend r) → Gone user (leave r user b)
    leave-Gone user b =
        let (w, s, k, c, _, _) = leave-has r up user b in
        record { waits_not = w; no_session = s; no_blocks = k; no_entry = c }

    -- The cleanup of another connection leaves it so.
    Gone-leave : (v user : String) (b : Backend r) → Gone v b → Gone v (leave r user b)
    Gone-leave v user b g = elim (Bool-cases (v == user)) [
      | inl same ↦ rw ((eq_iff v user).0 same) (leave-Gone user b)
      | inr other ↦
          let ne : v ≢ user = λ e. absurd (cc ((eq_iff v user).1 e, other)) in
          let (_, _, _, _, same_session, same_blocks) = leave-has r up user b in
          record {
            waits_not =
                rw (leave-queue r up user b)
                  (Within-not _ _ v (keep_if-Within _ ((keys b.store).lists queue)) g.waits_not);
            no_session = same_session v ne ∙ g.no_session;
            no_blocks = same_blocks v ne ∙ g.no_blocks;
            no_entry = Within-not _ _ v (leave-Within user b) g.no_entry;
          }
    ]

    Gone-leave_all :
        (v : String) (users : List String) (b : Backend r) → Gone v b → Gone v (leave_all users b)
    Gone-leave_all v [] b g = g
    Gone-leave_all v (u ∷ us) b g = Gone-leave_all v us (leave r u b) (Gone-leave v u b g)

    leave_all-Gone :
        (v : String) (users : List String) (b : Backend r)
        → has users v ≡ true
        → Gone v (leave_all users b)
    leave_all-Gone v [] b h = absurd (cc h)
    leave_all-Gone v (u ∷ us) b h = elim (Bool-cases (u == v)) [
      | inl same ↦ Gone-leave_all v us (leave r u b) (rw (← (eq_iff u v).0 same) (leave-Gone u b))
      | inr other ↦ leave_all-Gone v us (leave r u b) (rw other at h)
    ]

    leave_all-Within :
        (users : List String) (b : Backend r) → Within (leave_all users b).clients b.clients
    leave_all-Within [] b v h = h
    leave_all-Within (u ∷ us) b v h = leave-Within u b v (leave_all-Within us (leave r u b) v h)

module _ {r : Redis} (env : Environment) {interval burst : ℕ} (l : Limits interval burst)
    (trust_xff : Bool) (validate : String → Option Payload) (w : ℕ) where
  -- When `gracefulShutdown` has got to `server.Shutdown`, while `n` handlers of /ws had found the flag
  -- unset and were under way when it was set, in whichever order these register clients, new
  -- requests to /ws come, connections end and other work is done that keeps the table of clients,
  -- and then the connections that it closed have all been cleaned up, while no Redis command fails:
  -- at most `n` clients were registered after the snapshot of `closeAllClients`; only users of these
  -- have entries in the table of clients; and of all others who had an entry in it none waits, has a
  -- session or has blocks in Redis.
  pub leave_all-Reach :
      (up : IsUp r) (n : ℕ) (b : Backend r) {t : Server r}
      → Reach env l trust_xff validate w (mark_unready n b) t
      → t.phase ≡ stopping
      → (length t.entered_last ≤ n)
        × Within (leave_all t.shut t.backend).clients t.entered_last
        × ((user : String)
            → has t.backend.clients user ≡ true
            → has t.entered_last user ≡ false
            → Gone user (leave_all t.shut t.backend))
  leave_all-Reach up n b {t} reach e =
      let (_, few, _, _, closed, _) = Reach-Stopped env l trust_xff validate w n b reach e in
      let done = leave_all t.shut t.backend in
      (
        few,
        λ user left. elim (Bool-cases (has t.entered_last user)) [
          | inl entered ↦ entered
          | inr early ↦
              let k = closed user (leave_all-Within up t.shut t.backend user left) early in
              absurd (cc (left, (leave_all-Gone up user t.shut t.backend k).no_entry))
        ],
        λ user k early. leave_all-Gone up user t.shut t.backend (closed user k early),
      )
