-- ===== src/Db/Invariant.antt =====
-- What holds of the tables of backend/db.go after any calls.
use banana_talk.Prelude.{
  ℕ, ◌+◌, ◌<◌, String, ◌≡◌, ◌≢◌, refl, sym, ◌∙◌, Bool, true, false, ◌&&◌, ◌||◌, Option, none, List,
  [], ◌∷◌, ◌==ℕ◌, if◌then◌else◌, arith, All, All-map,
}
use banana_talk.Sql.{User, Report, Tables}
use banana_talk.Sql.Laws.{SameRows}
use banana_talk.Db.Statements.{
  has_id, has_sub, has_block, first_where, update_where, insert_block_row, one_more, with_ban,
  new_user, are_users,
}
use banana_talk.Db.Rows.{
  has_block-insert, All-update_where, Differs, Unique, Unique-update_where, absent_sub,
  any-has_id-lt, reports_against, reports_against-new,
}
use banana_talk.Db.Reports.{filed}

-- The user's counter is the number of reports against the user.
abbrev pub IsCounted : List Report → User → Type 0
IsCounted rs u = u.reports_received_count ≡ reports_against u.id rs

-- Blocks go both ways and never from a user to the same; each user's counter is the number of
-- reports against the user; ids and google_subs are unique; new ids are larger than all in use.
pub record Valid (t : Tables) : Type 0 where
  pub symmetric : (a b : ℕ) → has_block t.blocks a b ≡ has_block t.blocks b a
  pub irreflexive : (a : ℕ) → has_block t.blocks a a ≡ false
  pub counted : All (IsCounted t.reports) t.users
  pub unique : Unique t.users
  pub old_ids : All (λ u. u.id < t.next_user_id) t.users
  pub old_reports : All (λ r. r.reported_id < t.next_user_id) t.reports

-- Only the rows and the next user id count.
pub Valid-same : {s t : Tables} → SameRows t s → t.next_user_id ≡ s.next_user_id → Valid s → Valid t
Valid-same {s} {t} (eu, er, eb) en v = record {
  symmetric = rw eb v.symmetric;
  irreflexive = rw eb v.irreflexive;
  counted = rw (eu, er) v.counted;
  unique = rw eu v.unique;
  old_ids = rw (eu, en) v.old_ids;
  old_reports = rw (er, en) v.old_reports;
}

-- A user's ban does not matter.
pub Valid-banned :
    (p : User → Bool) (at : Option ℕ) (t : Tables)
    → Valid t
    → Valid (record t { users = update_where p (with_ban at) t.users })
Valid-banned p at t v = record {
  symmetric = v.symmetric;
  irreflexive = v.irreflexive;
  counted = All-update_where _ p (with_ban at) t.users (λ u h. h) v.counted;
  unique = Unique-update_where p (with_ban at) (λ u. refl) (λ u. refl) t.users v.unique;
  old_ids = All-update_where _ p (with_ban at) t.users (λ u h. h) v.old_ids;
  old_reports = v.old_reports;
}

-- Both rows of a block.
pub Valid-block :
    (a b now : ℕ) (t : Tables)
    → a ≢ b
    → Valid t
    → Valid (record t { blocks = insert_block_row b a now (insert_block_row a b now t.blocks) })
Valid-block a b now t ne v = record {
  symmetric = λ x y. both x y ∙ ground (arith, v.symmetric x y) ∙ sym (both y x);
  irreflexive = λ x. both x x ∙ ground (arith, v.irreflexive x);
  counted = v.counted;
  unique = v.unique;
  old_ids = v.old_ids;
  old_reports = v.old_reports;
}
  where
    both :
        (x y : ℕ)
        → has_block (insert_block_row b a now (insert_block_row a b now t.blocks)) x y
          ≡ (has_block t.blocks x y || ((a ==ℕ x) && (b ==ℕ y)) || ((b ==ℕ x) && (a ==ℕ y)))
    both x y =
        has_block-insert b a now x y (insert_block_row a b now t.blocks)
        ∙ rw (has_block-insert a b now x y t.blocks) (ground arith)

IsCounted-filed :
    (b : ℕ) (r : Report) (rs : List Report) (us : List User)
    → r.reported_id ≡ b
    → All (IsCounted rs) us
    → All (IsCounted (r ∷ rs)) (update_where (has_id b) one_more us)
IsCounted-filed b r rs [] e h = tt
IsCounted-filed b r rs (u ∷ us) e (h, hs) = (here (u.id ==ℕ b) refl, IsCounted-filed b r rs us e hs)
  where
    here : (hit : Bool) → (u.id ==ℕ b) ≡ hit → IsCounted (r ∷ rs) (if hit then one_more u else u)
    here true k = ground (arith, k, h, e)
    here false k = ground (arith, k, h, e)

pub Valid-filed :
    (a b : ℕ) (reason url key : String) (now : ℕ) (t : Tables)
    → a ≢ b
    → are_users a b t ≡ true
    → Valid t
    → Valid (filed a b reason url key now t)
Valid-filed a b reason url key now t ne known v = record {
  symmetric = w.symmetric;
  irreflexive = w.irreflexive;
  counted = IsCounted-filed b _ t.reports t.users refl v.counted;
  unique = Unique-update_where (has_id b) one_more (λ u. refl) (λ u. refl) t.users v.unique;
  old_ids = All-update_where _ (has_id b) one_more t.users (λ u h. h) v.old_ids;
  old_reports = (any-has_id-lt b t.next_user_id t.users v.old_ids (ground arith), v.old_reports);
}
  where
    w : Valid (record t { blocks = insert_block_row b a now (insert_block_row a b now t.blocks) })
    w = Valid-block a b now t ne v

-- The counter may run ahead.
pub Valid-grow : (t : Tables) → Valid t → Valid (record t { next_user_id = t.next_user_id + 1 })
Valid-grow t v = record {
  symmetric = v.symmetric;
  irreflexive = v.irreflexive;
  counted = v.counted;
  unique = v.unique;
  old_ids =
      All-map (λ u. u.id < t.next_user_id) (λ u. u.id < t.next_user_id + 1) t.users
        (λ u h. omega arith) v.old_ids;
  old_reports =
      All-map (λ r. r.reported_id < t.next_user_id) (λ r. r.reported_id < t.next_user_id + 1)
        t.reports (λ r h. omega arith) v.old_reports;
}

pub Valid-new_user :
    (sub : String) (now : ℕ) (t : Tables)
    → first_where (has_sub sub) t.users ≡ none
    → Valid t
    → Valid (record t {
      users = new_user t.next_user_id sub now ∷ t.users;
      next_user_id = t.next_user_id + 1;
    })
Valid-new_user sub now t fresh v = record {
  symmetric = v.symmetric;
  irreflexive = v.irreflexive;
  counted = (sym (reports_against-new t.next_user_id t.reports v.old_reports), v.counted);
  unique = (others t.users v.old_ids (absent_sub sub t.users fresh), v.unique);
  old_ids = (omega arith, (Valid-grow t v).old_ids);
  old_reports = (Valid-grow t v).old_reports;
}
  where
    others :
        (us : List User)
        → All (λ u. u.id < t.next_user_id) us
        → All (λ u. u.google_sub ≢ sub) us
        → All (Differs (new_user t.next_user_id sub now)) us
    others [] h k = tt
    others (u ∷ us) (h, hs) (k, ks) = ((omega arith, k), others us hs ks)
