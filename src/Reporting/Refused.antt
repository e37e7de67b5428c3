-- ===== src/Reporting/Refused.antt =====
-- What a request to POST /report of backend/report.go that ends with an error has changed.
use banana_talk.Prelude.{
  ℕ, String, ◌≡◌, refl, sym, ap, ◌∙◌, inl, inr, Bool, Option, none, some, ◌==◌, ltb, Bool-cases,
}
use banana_talk.Redis.{Redis}
use banana_talk.Sql.{
  Environment, Conn, Query, Result, DbError, ok, err, failed, proceed, ◌>>=◌, statement,
}
use banana_talk.Sql.Laws.{transaction-err, KeepsIds-statement}
use banana_talk.Db.Reports.{record_report-atomic}
use banana_talk.Db.{upsert_user}
use banana_talk.Http.{Request, error, reported}
use banana_talk.Auth.{Payload, authenticate}
use banana_talk.Strings.{trim_space}
use banana_talk.Backend.{Backend, known_or_stub}
use banana_talk.Backend.Known.{known_or_stub-files, upsert_user-files, SameFiles}
use banana_talk.Reporting.{
  max_screenshot_bytes, Form, too_large, malformed, form, kept_reason, screenshot_key, report_ids,
  persist, finish_report, report_stored, report_named, report_known, report_file, report_texts,
  report_form, report_by, report_handler,
}

abbrev pub paired : ℕ → ℕ → Query (ℕ × ℕ)
paired i j c = (ok (i, j), c)

module _ (env : Environment) where
  abbrev second_id : ℕ → String → Query (ℕ × ℕ)
  second_id i s = known_or_stub env s >>= paired i

  persist-files :
      (i j : ℕ) (reason : Option String) (url key : String) (c : Conn) {e : DbError} {c' : Conn}
      → persist env i j reason url key c ≡ (err e, c')
      → SameFiles c'.tables c.tables
  unfolding persist
  persist-files i j none url key c h =
      let (rows, ids) =
        transaction-err env (λ now. statement env (λ at t. (err failed, t))) c
          (KeepsIds-statement env (λ at t. (err failed, t)) (λ at t. refl)) h in
      (rows.1, rows.2)
  persist-files i j (some reason) url key c h =
      let (rows, ids) = record_report-atomic env i j reason url key c h in (rows.1, rows.2)

  second_id-files : (i : ℕ) (s : String) (c : Conn) → SameFiles (second_id i s c).1.tables c.tables
  second_id-files i s c = let (x, c1) = known_or_stub env s c in go x c1 refl
    where
      go :
          (x : Result ℕ) (c1 : Conn)
          → known_or_stub env s c ≡ (x, c1)
          → SameFiles (proceed x (paired i) c1).1.tables c.tables
      go (ok j) c1 e = rw (ap (λ q. q.1) e) at (known_or_stub-files env s c)
      go (err d) c1 e = rw (ap (λ q. q.1) e) at (known_or_stub-files env s c)

  pub report_ids-files :
      (a s : String) (c : Conn) → SameFiles (report_ids env a s c).1.tables c.tables
  unfolding report_ids
  report_ids-files a s c = let (x, c1) = upsert_user env a c in go x c1 refl
    where
      go :
          (x : Result (ℕ × Bool)) (c1 : Conn)
          → upsert_user env a c ≡ (x, c1)
          → SameFiles (proceed x (λ p. second_id p.0 s) c1).1.tables c.tables
      go (ok p) c1 e =
          let (reports, blocks) = rw (ap (λ q. q.1) e) at (upsert_user-files env a c) in
          let (reports2, blocks2) = second_id-files p.0 s c1 in
          (reports2 ∙ reports, blocks2 ∙ blocks)
      go (err d) c1 e = rw (ap (λ q. q.1) e) at (upsert_user-files env a c)

-- Reports, blocks, Redis, collectors and connections are as before.
abbrev pub Untouched : {r : Redis} → Backend r → Backend r → Type 0
Untouched b b' =
    SameFiles b'.conn.tables b.conn.tables
    × (b'.store ≡ b.store)
    × (b'.metrics ≡ b.metrics)
    × (b'.clients ≡ b.clients)
    × (b'.closed ≡ b.closed)

reported_ne : {n : ℕ} {code message : String} {x : Bool} → reported x ≡ error n code message → ⊥
reported_ne e = cc

module _ (r : Redis) (env : Environment) (validate : String → Option Payload) (now : ℕ)
    (random_hex : Option String) (upload : String → Option String) (n : ℕ) (code message : String)
    (b' : Backend r) where
  same_but_conn :
      (b : Backend r) (c : Conn)
      → SameFiles c.tables b.conn.tables
      → b' ≡ record b { conn = c }
      → Untouched b b'
  same_but_conn b c (reports, blocks) e = rw e ((reports, blocks), refl, refl, refl, refl)

  same : (b : Backend r) → b' ≡ b → Untouched b b'
  same b e = rw e ((refl, refl), refl, refl, refl, refl)

  finish_report-Untouched :
      (a s : String) (b : Backend r) (x : Result Bool) (c : Conn)
      → ((d : DbError) → x ≡ err d → SameFiles c.tables b.conn.tables)
      → finish_report r env validate now random_hex upload a s b (x, c) ≡ (error n code message, b')
      → Untouched b b'
  unfolding finish_report
  finish_report-Untouched a s b (err d) c k h = same_but_conn b c (k d refl) (ap (λ p. p.1) (sym h))
  finish_report-Untouched a s b (ok x) c k h = absurd (reported_ne (ap (λ p. p.0) h))

  report_stored-Untouched :
      (a s reason : String) (ids : ℕ × ℕ) (key : String) (x : Option String) (b : Backend r)
      → report_stored r env validate now random_hex upload a s reason ids key x b
        ≡ (error n code message, b')
      → Untouched b b'
  unfolding report_stored
  report_stored-Untouched a s reason ids key none b h = same b (ap (λ p. p.1) (sym h))
  report_stored-Untouched a s reason ids key (some url) b h =
      let (x, c) = persist env ids.0 ids.1 (kept_reason reason) url key b.conn in
      finish_report-Untouched a s b x c
        (λ d e.
          persist-files env ids.0 ids.1 (kept_reason reason) url key b.conn (ap (λ y. (y, c)) e))
        h

  report_named-Untouched :
      (a s reason : String) (ids : ℕ × ℕ) (x : Option String) (b : Backend r)
      → report_named r env validate now random_hex upload a s reason ids x b
        ≡ (error n code message, b')
      → Untouched b b'
  unfolding report_named
  report_named-Untouched a s reason ids none b h = same b (ap (λ p. p.1) (sym h))
  report_named-Untouched a s reason ids (some key) b h =
      report_stored-Untouched a s reason ids key (upload key) b h

  report_known-Untouched :
      (a s reason : String) (b : Backend r) (x : Result (ℕ × ℕ)) (c : Conn)
      → SameFiles c.tables b.conn.tables
      → report_known r env validate now random_hex upload a s reason b (x, c)
        ≡ (error n code message, b')
      → Untouched b b'
  unfolding report_known
  report_known-Untouched a s reason b (err d) c k h = same_but_conn b c k (ap (λ p. p.1) (sym h))
  report_known-Untouched a s reason b (ok ids) c (reports, blocks) h =
      let ((reports2, blocks2), store, metrics, clients, closed) =
        report_named-Untouched a s reason ids (screenshot_key random_hex) (record b { conn = c })
          h in
      ((reports2 ∙ reports, blocks2 ∙ blocks), store, metrics, clients, closed)

  report_file-Untouched :
      (a s reason : String) (x : Option ℕ) (b : Backend r)
      → report_file r env validate now random_hex upload a s reason x b ≡ (error n code message, b')
      → Untouched b b'
  unfolding report_file
  report_file-Untouched a s reason none b h = same b (ap (λ p. p.1) (sym h))
  report_file-Untouched a s reason (some size) b h =
      elim (Bool-cases (ltb max_screenshot_bytes size)) [
        | inl big ↦ same b (ap (λ p. p.1) (sym (rw big at h)))
        | inr small ↦
            let (x, c) = report_ids env a s b.conn in
            report_known-Untouched a s reason b x c (report_ids-files env a s b.conn)
              (rw small at h)
      ]

  report_texts-Untouched :
      (a s reason : String) (x : Option ℕ) (b : Backend r)
      → report_texts r env validate now random_hex upload a s reason x b
        ≡ (error n code message, b')
      → Untouched b b'
  unfolding report_texts
  report_texts-Untouched a s reason x b h = elim (Bool-cases (s == "")) [
    | inl empty ↦ same b (ap (λ p. p.1) (sym (rw empty at h)))
    | inr named ↦ elim (Bool-cases (s == a)) [
      | inl self ↦ same b (ap (λ p. p.1) (sym (rw (named, self) at h)))
      | inr other ↦ elim (Bool-cases (reason == "")) [
        | inl silent ↦ same b (ap (λ p. p.1) (sym (rw (named, other, silent) at h)))
        | inr reasoned ↦ report_file-Untouched a s reason x b (rw (named, other, reasoned) at h)
      ]
    ]
  ]

  report_by-Untouched :
      (x : Option String) (f : Form) (b : Backend r)
      → report_by r env validate now random_hex upload x f b ≡ (error n code message, b')
      → Untouched b b'
  unfolding report_by report_form
  report_by-Untouched none f b h = same b (ap (λ p. p.1) (sym h))
  report_by-Untouched (some a) too_large b h = same b (ap (λ p. p.1) (sym h))
  report_by-Untouched (some a) malformed b h = same b (ap (λ p. p.1) (sym h))
  report_by-Untouched (some a) (form id reason x) b h =
      report_texts-Untouched a (trim_space id) (trim_space reason) x b h

  -- A report that is answered with an error, at whichever stage and whichever database statement
  -- failed, has left all reports and blocks, Redis, the collectors and the connections as they were.
  -- (A row for either user may be new.)
  pub report_handler-Untouched :
      (req : Request) (f : Form) (b : Backend r)
      → report_handler r env validate now random_hex upload req f b ≡ (error n code message, b')
      → Untouched b b'
  unfolding report_handler
  report_handler-Untouched req f b h = elim (Bool-cases (req.method == "POST")) [
    | inr wrong ↦ same b (ap (λ p. p.1) (sym (rw wrong at h)))
    | inl post ↦ report_by-Untouched (authenticate validate now req) f b (rw post at h)
  ]
