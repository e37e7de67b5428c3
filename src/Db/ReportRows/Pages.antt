-- ===== src/Db/ReportRows/Pages.antt =====
-- The rows that `listReports` of backend/db.go gives, when both of its queries succeed.
use banana_talk.Prelude.{
  ℕ, suc, ◌+◌, ℤ, String, ◌≡◌, refl, sym, ap, ◌∙◌, inl, inr, Bool, true, false, some, List, [], ◌∷◌,
  length, keep_if, take, drop, All, any, Bool-cases,
}
use banana_talk.Sql.{User, Report, Tables, Environment, Conn, ok}
use banana_talk.Db.Statements.{first_where, has_id}
use banana_talk.Db.ReportRows.{
  ReportRow, Postgres, joined, clamp_limit, clamp_offset, has_reason, all_rows, select_reports_sql,
  count_reports_sql, select_reports, list_reports,
}

-- Both users of a report have a row.
abbrev pub IsReferenced : List User → Report → Type 0
IsReferenced us r = (any (has_id r.reporter_id) us ≡ true) × (any (has_id r.reported_id) us ≡ true)

found :
    (p : User → Bool) (us : List User) → any p us ≡ true → (u : User) × (first_where p us ≡ some u)
found p [] h = absurd (cc h)
found p (u ∷ us) h = elim (Bool-cases (p u)) [
  | inl hit ↦ rw hit (u, refl)
  | inr miss ↦ rw miss (found p us (rw miss at h))
]

length-joined :
    (us : List User) (rs : List Report)
    → All (IsReferenced us) rs
    → length (joined us rs) ≡ length rs
length-joined us [] h = refl
length-joined us (r ∷ rs) (h, hs) =
    let (u, e) = found (has_id r.reporter_id) us h.0 in
    let (v, f) = found (has_id r.reported_id) us h.1 in rw (e, f) (ap suc (length-joined us rs hs))

All-keep_if :
    (P : Report → Type 0) (p : Report → Bool) (rs : List Report) → All P rs → All P (keep_if p rs)
All-keep_if P p [] h = h
All-keep_if P p (r ∷ rs) (h, hs) = elim (Bool-cases (p r)) [
  | inl kept ↦ rw kept (h, All-keep_if P p rs hs)
  | inr dropped ↦ rw dropped (All-keep_if P p rs hs)
]

keep_if-all : (xs : List ReportRow) → keep_if (λ x. true) xs ≡ xs
keep_if-all [] = refl
keep_if-all (x ∷ xs) = ap (λ ys. x ∷ ys) (keep_if-all xs)

module _ (d : Postgres) where
  -- The join loses no report.
  pub length-all_rows :
      (n : ℕ) (filter : String) (t : Tables)
      → All (IsReferenced t.users) t.reports
      → length (all_rows d n filter t) ≡ length (keep_if (has_reason d filter) t.reports)
  length-all_rows n filter t h =
      let kept = keep_if (has_reason d filter) t.reports in
      let rows = joined t.users kept in
      ap length (sym (keep_if-all (d.order n rows)))
      ∙ d.order_same n rows (λ x. true)
      ∙ ap length (keep_if-all rows)
      ∙ length-joined t.users kept
          (All-keep_if (IsReferenced t.users) (has_reason d filter) t.reports h)

  pub list_reports-page :
      (env : Environment) (filter : String) (limit offset : ℤ) (c : Conn)
      → ((n : ℕ) → env.fails n ≡ false)
      → list_reports d env filter limit offset c ≡ (
        ok (
          take (clamp_limit limit) (drop (clamp_offset offset) (all_rows d c.step filter c.tables)),
          length (keep_if (has_reason d filter) c.tables.reports),
        ),
        record c { step = c.step + 1 + 1 },
      )
  unfolding list_reports select_reports select_reports_sql count_reports_sql
  list_reports-page env filter limit offset c up = rw (up c.step) (rw (up (c.step + 1)) refl)
