-- ===== src/Reporting/Named.antt =====
-- Which users the ids stand for that POST /report of backend/report.go files a report with.
use banana_talk.Prelude.{ℕ, String, ◌≡◌, ◌≢◌, ap, ◌∙◌, subst, some}
use banana_talk.Sql.{Tables, Environment, Conn, ok, ◌>>=◌}
use banana_talk.Sql.Laws.{bind-ok}
use banana_talk.Db.Lookups.{row_of, res_inj, upsert_user-Found}
use banana_talk.Db.Extends.{id_of}
use banana_talk.Db.Grows.{Grows-pure, Grows-then, GrowsTables, upsert_user-Grows}
use banana_talk.Db.{upsert_user}
use banana_talk.Backend.Known.{known_or_stub-Found}
use banana_talk.Backend.Sound.{known_or_stub-Grows}
use banana_talk.Backend.{known_or_stub}
use banana_talk.Reporting.Refused.{paired}
use banana_talk.Reporting.{report_ids}

-- The two users have rows with these ids.
pub record Ids (a s : String) (ids : ℕ × ℕ) (t : Tables) : Type 0 where
  pub first : id_of (row_of a t) ≡ some ids.0
  pub second : id_of (row_of s t) ≡ some ids.1

module _ (env : Environment) where
  pub report_ids-Grows : (a s : String) → GrowsTables (report_ids env a s)
  unfolding report_ids
  report_ids-Grows a s =
      Grows-then (upsert_user env a) (λ p. known_or_stub env s >>= paired p.0)
        (upsert_user-Grows env a)
        (λ p.
          Grows-then (known_or_stub env s) (paired p.0) (known_or_stub-Grows env s)
            (λ id. Grows-pure {A = ℕ × ℕ} (p.0, id)))

  pub report_ids-Ids :
      (a s : String) (c c' : Conn) {ids : ℕ × ℕ}
      → a ≢ s
      → report_ids env a s c ≡ (ok ids, c')
      → Ids a s ids c'.tables
  unfolding report_ids
  report_ids-Ids a s c c' {ids} ne h =
      let (p, c1, e1, r1) =
        bind-ok (upsert_user env a) (λ p. known_or_stub env s >>= paired p.0) c h in
      let (j, c2, e2, r2) = bind-ok (known_or_stub env s) (paired p.0) c1 r1 in
      let f1 = upsert_user-Found env a c c1 e1 in
      let f2 = known_or_stub-Found env s c1 c2 e2 in
      let both : Ids a s (p.0, j) c2.tables = record {
        first = ap id_of (f2.others a ne ∙ f1.row) ∙ ap some f1.same_id;
        second = ap id_of f2.row ∙ ap some f2.same_id;
      } in
      subst (λ q. Ids a s q c'.tables) (res_inj (ap (λ q. q.0) r2))
        (subst (λ d. Ids a s (p.0, j) d.tables) (ap (λ q. q.1) r2) both)
