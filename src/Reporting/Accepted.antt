-- ===== src/Reporting/Accepted.antt =====
-- Which requests to POST /report of backend/report.go are accepted.
use banana_talk.Prelude.{
  ℕ, ◌≤◌, String, ◌≡◌, ◌≢◌, refl, sym, ap, inl, inr, subst, Bool, Option, none, some, ◌==◌, eq_iff,
  ltb, Bool-cases, arith,
}
use banana_talk.Redis.{Redis}
use banana_talk.Sql.{Environment, Conn, Result, ok, err}
use banana_talk.Http.{Request, reported}
use banana_talk.Auth.{Payload, authenticate}
use banana_talk.Strings.{trim_space}
use banana_talk.Backend.{Backend}
use banana_talk.Db.Extends.{Extends}
use banana_talk.Backend.Known.{SameFiles}
use banana_talk.Reporting.Refused.{report_ids-files}
use banana_talk.Reporting.Named.{Ids, report_ids-Ids, report_ids-Grows}
use banana_talk.Reporting.Filed.{error_ne, Stored, report_stored-Stored}
use banana_talk.Reporting.{
  max_screenshot_bytes, Form, too_large, malformed, form, screenshot_key, report_ids, report_named,
  report_known, report_file, report_texts, report_form, report_by, report_handler,
}

module _ (r : Redis) (env : Environment) (validate : String → Option Payload) (now : ℕ)
    (random_hex : Option String) (upload : String → Option String) where
  -- The two users have rows, whether or not they had them before, and the report is stored for the
  -- ids of these rows.
  pub record Known (reporter_sub reported_sub reason : String) (b b' : Backend r) (banned : Bool)
      : Type 0 where
    pub ids : ℕ × ℕ
    pub conn : Conn
    pub rows : Ids reporter_sub reported_sub ids conn.tables
    pub rows_stay : Extends b.conn.tables conn.tables
    pub files_stay : SameFiles conn.tables b.conn.tables
    pub stored :
        Stored r env validate now random_hex upload reporter_sub reported_sub reason ids conn b b'
          banned

  -- What a report that is accepted satisfies, and what it has done.
  pub record Accepted (reporter_sub : String) (f : Form) (b b' : Backend r) (banned : Bool)
      : Type 0 where
    pub id : String
    pub reason : String
    pub size : ℕ
    pub fields : f ≡ form id reason (some size)
    pub small : size ≤ max_screenshot_bytes
    pub named : trim_space id ≢ ""
    pub other : reporter_sub ≢ trim_space id
    pub reasoned : trim_space reason ≢ ""
    pub known : Known reporter_sub (trim_space id) (trim_space reason) b b' banned

  module _ (a : String) (b b' : Backend r) (banned : Bool) where
    report_named-Stored :
        (s reason : String) (ids : ℕ × ℕ) (x : Option String) (c : Conn)
        → screenshot_key random_hex ≡ x
        → report_named r env validate now random_hex upload a s reason ids x (record b { conn = c })
          ≡ (reported banned, b')
        → Stored r env validate now random_hex upload a s reason ids c b b' banned
    unfolding report_named
    report_named-Stored s reason ids none c k h = absurd (error_ne (ap (λ p. p.0) h))
    report_named-Stored s reason ids (some key) c k h =
        let p =
          report_stored-Stored r env validate now random_hex upload a s reason ids key (upload key)
            (record b { conn = c }) k refl h in
        record {
          key = p.key;
          url = p.url;
          kept = p.kept;
          key_made = p.key_made;
          uploaded = p.uploaded;
          reason_kept = p.reason_kept;
          recorded = p.recorded;
          after = p.after;
        }

    report_known-Known :
        (s reason : String) (x : Result (ℕ × ℕ)) (c : Conn)
        → a ≢ s
        → report_ids env a s b.conn ≡ (x, c)
        → report_known r env validate now random_hex upload a s reason b (x, c)
          ≡ (reported banned, b')
        → Known a s reason b b' banned
    unfolding report_known
    report_known-Known s reason (err e) c ne k h = absurd (error_ne (ap (λ p. p.0) h))
    report_known-Known s reason (ok ids) c ne k h = record {
      ids = ids;
      conn = c;
      rows = report_ids-Ids env a s b.conn c ne k;
      rows_stay =
          subst (λ d. Extends b.conn.tables d.tables) (ap (λ p. p.1) k)
            (report_ids-Grows env a s b.conn).extends;
      files_stay =
          subst (λ d. SameFiles d.tables b.conn.tables) (ap (λ p. p.1) k)
            (report_ids-files env a s b.conn);
      stored = report_named-Stored s reason ids (screenshot_key random_hex) c refl h;
    }

    report_file-Known :
        (s reason : String) (x : Option ℕ)
        → a ≢ s
        → report_file r env validate now random_hex upload a s reason x b ≡ (reported banned, b')
        → (size : ℕ) × (x ≡ some size)
          × (size ≤ max_screenshot_bytes)
          × Known a s reason b b' banned
    unfolding report_file
    report_file-Known s reason none ne h = absurd (error_ne (ap (λ p. p.0) h))
    report_file-Known s reason (some size) ne h =
        elim (Bool-cases (ltb max_screenshot_bytes size)) [
          | inl big ↦ absurd (error_ne (ap (λ p. p.0) (rw big at h)))
          | inr small ↦
              let (x, c) = report_ids env a s b.conn in
              (
                size,
                refl,
                ground (arith, small),
                report_known-Known s reason x c ne refl (rw small at h),
              )
        ]

    report_texts-Known :
        (s reason : String) (x : Option ℕ)
        → report_texts r env validate now random_hex upload a s reason x b ≡ (reported banned, b')
        → (s ≢ "")
          × (a ≢ s)
          × (reason ≢ "")
          × (size : ℕ) × (x ≡ some size)
          × (size ≤ max_screenshot_bytes)
          × Known a s reason b b' banned
    unfolding report_texts
    report_texts-Known s reason x h = elim (Bool-cases (s == "")) [
      | inl empty ↦ absurd (error_ne (ap (λ p. p.0) (rw empty at h)))
      | inr named ↦ elim (Bool-cases (s == a)) [
        | inl self ↦ absurd (error_ne (ap (λ p. p.0) (rw (named, self) at h)))
        | inr other ↦ elim (Bool-cases (reason == "")) [
          | inl silent ↦ absurd (error_ne (ap (λ p. p.0) (rw (named, other, silent) at h)))
          | inr reasoned ↦
              let ne : a ≢ s = λ e. absurd (ground (arith, other, (eq_iff s a).1 (sym e))) in
              let (size, fields, small, known) =
                report_file-Known s reason x ne (rw (named, other, reasoned) at h) in
              (
                ground (arith, named, eq_iff s ""),
                ne,
                ground (arith, reasoned, eq_iff reason ""),
                size,
                fields,
                small,
                known,
              )
        ]
      ]
    ]

    report_form-Accepted :
        (f : Form)
        → report_form r env validate now random_hex upload a f b ≡ (reported banned, b')
        → Accepted a f b b' banned
    unfolding report_form
    report_form-Accepted too_large h = absurd (error_ne (ap (λ p. p.0) h))
    report_form-Accepted malformed h = absurd (error_ne (ap (λ p. p.0) h))
    report_form-Accepted (form id reason x) h =
        let (named, other, reasoned, size, e, small, known) =
          report_texts-Known (trim_space id) (trim_space reason) x h in
        record {
          id = id;
          reason = reason;
          size = size;
          fields = ap (form id reason) e;
          small = small;
          named = named;
          other = other;
          reasoned = reasoned;
          known = known;
        }

  -- A report that is answered with success comes from a user who is authenticated and is not the one
  -- reported; its two texts are not blank, its screenshot has at most 5 MiB and is stored, its reason
  -- is kept up to 500 bytes; both users have rows, every earlier user keeps the id of the row, reports
  -- and blocks stay as they were until then, and recordReport has recorded it with the ids of these
  -- rows, the reporter's first, with the ban that the answer tells. Both calls of AddBlock are made,
  -- the report is counted, and if it banned the reported user, the user's connection is closed.
  pub report_handler-Accepted :
      (req : Request) (f : Form) (b : Backend r) {b' : Backend r} {banned : Bool}
      → report_handler r env validate now random_hex upload req f b ≡ (reported banned, b')
      → (reporter : String) × (authenticate validate now req ≡ some reporter)
        × Accepted reporter f b b' banned
  unfolding report_handler report_by
  report_handler-Accepted req f b {b'} {banned} h = elim (Bool-cases (req.method == "POST")) [
    | inr wrong ↦ absurd (error_ne (ap (λ p. p.0) (rw wrong at h)))
    | inl post ↦ go (authenticate validate now req) refl (rw post at h)
  ]
    where
      go :
          (x : Option String)
          → authenticate validate now req ≡ x
          → report_by r env validate now random_hex upload x f b ≡ (reported banned, b')
          → (reporter : String) × (authenticate validate now req ≡ some reporter)
            × Accepted reporter f b b' banned
      go none e k = absurd (error_ne (ap (λ p. p.0) k))
      go (some sub) e k = (sub, e, report_form-Accepted sub b b' banned f k)
