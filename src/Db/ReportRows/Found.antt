-- ===== src/Db/ReportRows/Found.antt =====
-- Which row `getReport` of backend/db.go finds for the id of a row of `listReports`.
use banana_talk.Prelude.{
  ℕ, ◌≡◌, ◌≢◌, refl, sym, ap, true, false, Option, none, some, List, [], ◌∷◌, ◌==ℕ◌, ==ℕ_iff, All,
  arith,
}
use banana_talk.Sql.{User, Report}
use banana_talk.Db.Statements.{first_where, has_id}
use banana_talk.Db.ReportRows.{
  ReportRow, report_row, join_row, put_row, joined, first_report, row_of_report,
}

-- No two reports have the same id.
abbrev pub Distinct : List Report → Type 0
Distinct [] = Unit
Distinct (r ∷ rs) = All (λ s. s.id ≢ r.id) rs × Distinct rs

pub All-both :
    {A : Type 0} (P Q R : A → Type 0) (xs : List A)
    → ((x : A) → P x → Q x → R x)
    → All P xs
    → All Q xs
    → All R xs
All-both P Q R [] f h k = tt
All-both P Q R (x ∷ xs) f (h, hs) (k, ks) = (f x h k, All-both P Q R xs f hs ks)

All-put_row :
    (P : ReportRow → Type 0) (r : Report) (ru tu : Option User) (rows : List ReportRow)
    → ((row : ReportRow) → join_row r ru tu ≡ some row → P row)
    → All P rows
    → All P (put_row (join_row r ru tu) rows)
All-put_row P r none tu rows f h = h
All-put_row P r (some u) none rows f h = h
All-put_row P r (some u) (some v) rows f h = (f (report_row r u v) refl, h)

join_row-id :
    (r : Report) (ru tu : Option User) (row : ReportRow)
    → join_row r ru tu ≡ some row
    → row.id ≡ r.id
join_row-id r none tu row e = absurd (cc e)
join_row-id r (some u) none row e = absurd (cc e)
join_row-id r (some u) (some v) row e = ap (elim [ none ↦ r.id | some x ↦ x.id ]) (sym e)

-- What holds of the ids of the reports holds of those of the rows.
pub joined-ids :
    (Q : ℕ → Type 0) (us : List User) (rs : List Report)
    → All (λ r. Q r.id) rs
    → All (λ row. Q row.id) (joined us rs)
joined-ids Q us [] h = tt
joined-ids Q us (r ∷ rs) (h, hs) =
    All-put_row (λ row. Q row.id) r _ _ (joined us rs)
      (λ row e.
        rw
          (join_row-id r (first_where (has_id r.reporter_id) us)
            (first_where (has_id r.reported_id) us) row e)
          h)
      (joined-ids Q us rs hs)

pub joined-found :
    (us : List User) (rs : List Report)
    → Distinct rs
    → All (λ row. row_of_report us (first_report row.id rs) ≡ some row) (joined us rs)
joined-found us [] h = tt
joined-found us (r ∷ rs) (h, hs) =
    All-put_row _ r _ _ (joined us rs)
      (λ row e.
        let own : (r.id ==ℕ row.id) ≡ true = (==ℕ_iff r.id row.id).1 (
          sym (
            join_row-id r (first_where (has_id r.reporter_id) us)
              (first_where (has_id r.reported_id) us) row e)) in
        rw own e)
      (All-both _ _ _ (joined us rs)
        (λ row other found.
          let far : (r.id ==ℕ row.id) ≡ false = ground (arith, other) in rw far found)
        (joined-ids (λ id. id ≢ r.id) us rs h) (joined-found us rs hs))
