-- ===== src/Reporting/Filed.antt =====
-- What POST /report of backend/report.go has done when it answers with success.
use banana_talk.Prelude.{
  ℕ, String, ◌≡◌, refl, sym, ap, ◌∙◌, Bool, ◌&&◌, Option, none, some, ◌∷◌, if◌then◌else◌, has,
}
use banana_talk.Metrics.{count_report}
use banana_talk.Redis.{Redis}
use banana_talk.Matchmaker.{add_block}
use banana_talk.Sql.{Environment, Conn, Result, DbError, ok, err, failed, statement, sent}
use banana_talk.Sql.Laws.{statement-ok, transaction-ok}
use banana_talk.Db.Reports.{Recorded, record_report-Recorded}
use banana_talk.Http.{error, reported}
use banana_talk.Auth.{Payload}
use banana_talk.Backend.{Backend}
use banana_talk.Reporting.{kept_reason, screenshot_key, persist, finish_report, report_stored}

pub error_ne : {n : ℕ} {code message : String} {x : Bool} → error n code message ≡ reported x → ⊥
error_ne e = cc

reported_inj : {x y : Bool} → reported x ≡ reported y → x ≡ y
reported_inj {x} e = ap (elim [ reported z ↦ z | _ ↦ x ]) e

res_ne : {x : Bool} {d : DbError} → err d ≡ ok x → ⊥
res_ne e = cc

module _ (env : Environment) where
  pub persist-Recorded :
      (i j : ℕ) (reason : Option String) (url key : String) (c : Conn) {banned : Bool} {c' : Conn}
      → persist env i j reason url key c ≡ (ok banned, c')
      → (kept : String) × (reason ≡ some kept) × Recorded env i j kept url key c banned c'.tables
  unfolding persist
  persist-Recorded i j none url key c h =
      let (c1, e, same) = transaction-ok env (λ now. statement env (λ at t. (err failed, t))) c h in
      let (did, next) = statement-ok env (λ at t. (err failed, t)) (sent c) e in
      absurd (res_ne (ap (λ p. p.0) did))
  persist-Recorded i j (some reason) url key c h =
      (reason, refl, record_report-Recorded env i j reason url key c h)

module _ (r : Redis) (env : Environment) (validate : String → Option Payload) (now : ℕ)
    (random_hex : Option String) (upload : String → Option String) where
  -- The backend after the report, whose statements have left the connection `c`.
  abbrev pub reflected : String → String → Bool → Conn → Backend r → Backend r
  reflected reporter_sub reported_sub banned c b = record b {
    conn = c;
    store = add_block r reported_sub reporter_sub (add_block r reporter_sub reported_sub b.store);
    metrics = count_report banned b.metrics;
    closed = if banned && has b.clients reported_sub then reported_sub ∷ b.closed else b.closed;
  }

  -- The screenshot is stored, and the report is recorded, from the connection `c` on.
  pub record Stored (reporter_sub reported_sub reason : String) (ids : ℕ × ℕ) (c : Conn)
      (b b' : Backend r) (banned : Bool) : Type 0 where
    pub key : String
    pub url : String
    pub kept : String
    pub key_made : screenshot_key random_hex ≡ some key
    pub uploaded : upload key ≡ some url
    pub reason_kept : kept_reason reason ≡ some kept
    pub recorded : Recorded env ids.0 ids.1 kept url key c banned b'.conn.tables
    pub after : b' ≡ reflected reporter_sub reported_sub banned b'.conn b

  finish_report-reflected :
      (a s : String) (b : Backend r) (x : Result Bool) (c : Conn) {b' : Backend r} {banned : Bool}
      → finish_report r env validate now random_hex upload a s b (x, c) ≡ (reported banned, b')
      → (x ≡ ok banned) × (b' ≡ reflected a s banned c b)
  unfolding finish_report
  finish_report-reflected a s b (err e) c h = absurd (error_ne (ap (λ p. p.0) h))
  finish_report-reflected a s b (ok x) c h =
      let e = reported_inj (ap (λ p. p.0) h) in (ap ok e, rw e at (sym (ap (λ p. p.1) h)))

  pub report_stored-Stored :
      (a s reason : String) (ids : ℕ × ℕ) (key : String) (x : Option String) (b : Backend r)
      {b' : Backend r} {banned : Bool}
      → screenshot_key random_hex ≡ some key
      → upload key ≡ x
      → report_stored r env validate now random_hex upload a s reason ids key x b
        ≡ (reported banned, b')
      → Stored a s reason ids b.conn b b' banned
  unfolding report_stored
  report_stored-Stored a s reason ids key none b k u h = absurd (error_ne (ap (λ p. p.0) h))
  report_stored-Stored a s reason ids key (some url) b {b'} {banned} k u h =
      let (x, c) = persist env ids.0 ids.1 (kept_reason reason) url key b.conn in
      let (e, after) = finish_report-reflected a s b x c h in
      let (kept, is_kept, p) =
        persist-Recorded env ids.0 ids.1 (kept_reason reason) url key b.conn (ap (λ y. (y, c)) e) in
      record {
        key = key;
        url = url;
        kept = kept;
        key_made = k;
        uploaded = u;
        reason_kept = is_kept;
        recorded = rw after p;
        after = after ∙ ap (λ d. reflected a s banned d b) (ap (λ d. d.conn) (sym after));
      }
