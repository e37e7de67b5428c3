-- ===== src/Reporting/Kept.antt =====
-- POST /report of backend/report.go keeps the backend sound, whatever it answers.
use banana_talk.Prelude.{
  ℕ, String, ◌≡◌, ◌≢◌, refl, sym, inl, inr, Bool, true, Option, none, some, ◌==◌, eq_iff, ltb,
  Bool-cases, arith,
}
use banana_talk.Redis.{Redis, IsUp}
use banana_talk.Matchmaker.{add_block}
use banana_talk.Sql.{Tables, Environment, Conn, Result, ok, err}
use banana_talk.Db.Statements.{has_block}
use banana_talk.Db.Reports.{filed, Decided, Recorded}
use banana_talk.Db.Grows.{Grows, Grows-same, GrowsTables, record_report-Grows}
use banana_talk.Http.{Request}
use banana_talk.Auth.{Payload, authenticate}
use banana_talk.Strings.{trim_space}
use banana_talk.Backend.Sound.{Sound-Grows, Sound-conn, IsSound, add_block-Sound}
use banana_talk.Backend.{Backend}
use banana_talk.Blocking.Stored.{both_rows}
use banana_talk.Reporting.Named.{Ids, report_ids-Ids, report_ids-Grows}
use banana_talk.Reporting.Filed.{persist-Recorded}
use banana_talk.Reporting.{
  max_screenshot_bytes, Form, too_large, malformed, form, kept_reason, screenshot_key, report_ids,
  persist, finish_report, report_stored, report_named, report_known, report_file, report_texts,
  report_form, report_by, report_handler,
}

-- Both rows of the block are there, whether or not the report banned somebody.
Decided-blocks :
    (b now since : ℕ) (t t' : Tables) (banned : Bool)
    → Decided b now since t banned t'
    → t'.blocks ≡ t.blocks
Decided-blocks b now since t t' banned (inl (over, hit, e)) = rw e refl
Decided-blocks b now since t t' banned (inr (under, hit, e)) = rw e refl

module _ (env : Environment) where
  Recorded-blocks :
      (i j : ℕ) (kept url key : String) (c : Conn) (banned : Bool) (t' : Tables)
      → Recorded env i j kept url key c banned t'
      → (has_block t'.blocks i j ≡ true) × (has_block t'.blocks j i ≡ true)
  Recorded-blocks i j kept url key c banned t' p =
      let t = filed i j kept url key (env.now c.step) c.tables in
      rw (Decided-blocks j _ _ t t' banned p.decided)
        (both_rows i j (env.now c.step) (record t { blocks = c.tables.blocks }) t refl)

  persist-Grows :
      (i j : ℕ) (reason : Option String) (url key : String)
      → GrowsTables (persist env i j reason url key)
  unfolding persist
  persist-Grows i j (some reason) url key = record_report-Grows env i j reason url key
  persist-Grows i j none url key = λ c. Grows-same (ground arith)

module _ {G : String → String → Type 0} (r : Redis) (up : IsUp r) (env : Environment)
    (validate : String → Option Payload) (now : ℕ) (random_hex : Option String)
    (upload : String → Option String) (a s : String) where
  finish_report-IsSound :
      (i j : ℕ) (reason : Option String) (url key : String) (b : Backend r) (x : Result Bool)
      (c : Conn)
      → Ids a s (i, j) b.conn.tables
      → persist env i j reason url key b.conn ≡ (x, c)
      → Grows b.conn.tables c.tables
      → IsSound G b
      → IsSound G (finish_report r env validate now random_hex upload a s b (x, c)).1
  unfolding finish_report
  finish_report-IsSound i j reason url key b (err e) c ids k g h = Sound-conn b c g h
  finish_report-IsSound i j reason url key b (ok banned) c ids k g h =
      let (kept, is_kept, p) = persist-Recorded env i j reason url key b.conn k in
      let (forth, back) = Recorded-blocks env i j kept url key b.conn banned c.tables p in
      let first = g.extends.ids a i ids.first in
      let second = g.extends.ids s j ids.second in
      add_block-Sound r up s a (add_block r a s b.store)
        (record { blocker = j; target = i; blocker_row = second; target_row = first; row = back })
        (add_block-Sound r up a s b.store
          (record {
            blocker = i;
            target = j;
            blocker_row = first;
            target_row = second;
            row = forth;
          })
          (Sound-Grows g h))

  report_named-IsSound :
      (reason : String) (ids : ℕ × ℕ) (x : Option String) (b : Backend r)
      → Ids a s ids b.conn.tables
      → IsSound G b
      → IsSound G (report_named r env validate now random_hex upload a s reason ids x b).1
  unfolding report_named report_stored
  report_named-IsSound reason ids none b k h = h
  report_named-IsSound reason ids (some key) b k h = go (upload key)
    where
      go :
          (x : Option String)
          → IsSound G (report_stored r env validate now random_hex upload a s reason ids key x b).1
      go none = h
      go (some url) =
          let (y, c) = persist env ids.0 ids.1 (kept_reason reason) url key b.conn in
          finish_report-IsSound ids.0 ids.1 (kept_reason reason) url key b y c
            (record { first = k.first; second = k.second }) refl
            (persist-Grows env ids.0 ids.1 (kept_reason reason) url key b.conn) h

  report_known-IsSound :
      (reason : String) (b : Backend r) (x : Result (ℕ × ℕ)) (c : Conn)
      → a ≢ s
      → report_ids env a s b.conn ≡ (x, c)
      → Grows b.conn.tables c.tables
      → IsSound G b
      → IsSound G (report_known r env validate now random_hex upload a s reason b (x, c)).1
  unfolding report_known
  report_known-IsSound reason b (err e) c ne k g h = Sound-conn b c g h
  report_known-IsSound reason b (ok ids) c ne k g h =
      report_named-IsSound reason ids (screenshot_key random_hex) (record b { conn = c })
        (report_ids-Ids env a s b.conn c ne k) (Sound-conn b c g h)

  report_file-IsSound :
      (reason : String) (x : Option ℕ) (b : Backend r)
      → a ≢ s
      → IsSound G b
      → IsSound G (report_file r env validate now random_hex upload a s reason x b).1
  unfolding report_file
  report_file-IsSound reason none b ne h = h
  report_file-IsSound reason (some size) b ne h =
      elim (Bool-cases (ltb max_screenshot_bytes size)) [
        | inl big ↦ rw big h
        | inr small ↦
            let (x, c) = report_ids env a s b.conn in
            rw small (report_known-IsSound reason b x c ne refl (report_ids-Grows env a s b.conn) h)
      ]

  report_texts-IsSound :
      (reason : String) (x : Option ℕ) (b : Backend r)
      → IsSound G b
      → IsSound G (report_texts r env validate now random_hex upload a s reason x b).1
  unfolding report_texts
  report_texts-IsSound reason x b h = elim (Bool-cases (s == "")) [
    | inl empty ↦ rw empty h
    | inr named ↦ elim (Bool-cases (s == a)) [
      | inl self ↦ rw (named, self) h
      | inr other ↦ elim (Bool-cases (reason == "")) [
        | inl silent ↦ rw (named, other, silent) h
        | inr reasoned ↦
            rw (named, other, reasoned)
              (report_file-IsSound reason x b
                (λ e. absurd (ground (arith, other, (eq_iff s a).1 (sym e)))) h)
      ]
    ]
  ]

module _ {G : String → String → Type 0} (r : Redis) (up : IsUp r) (env : Environment)
    (validate : String → Option Payload) (now : ℕ) (random_hex : Option String)
    (upload : String → Option String) where
  report_by-IsSound :
      (x : Option String) (f : Form) (b : Backend r)
      → IsSound G b
      → IsSound G (report_by r env validate now random_hex upload x f b).1
  unfolding report_by report_form
  report_by-IsSound none f b h = h
  report_by-IsSound (some a) too_large b h = h
  report_by-IsSound (some a) malformed b h = h
  report_by-IsSound (some a) (form id reason x) b h =
      report_texts-IsSound r up env validate now random_hex upload a (trim_space id)
        (trim_space reason) x b h

  pub report_handler-IsSound :
      (req : Request) (f : Form) (b : Backend r)
      → IsSound G b
      → IsSound G (report_handler r env validate now random_hex upload req f b).1
  unfolding report_handler
  report_handler-IsSound req f b h = elim (Bool-cases (req.method == "POST")) [
    | inl post ↦ rw post (report_by-IsSound (authenticate validate now req) f b h)
    | inr wrong ↦ rw wrong h
  ]
