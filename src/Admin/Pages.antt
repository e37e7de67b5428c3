-- ===== src/Admin/Pages.antt =====
-- The pages that `adminListReports` of backend/admin.go gives, one after another.
use mathlib.Core.List.{map-append}
use native.Mathlib.Nat.{
  le_trans, zero-add, div-add-mod', mod-lt, mul-le-mul_right, mul-le-mul_left, zero-mul, suc-mul,
}
use banana_talk.Prelude.{
  ℕ, zero, suc, ◌+◌, ◌-◌, ◌*◌, ◌/◌, ◌%◌, ◌≤◌, ◌<◌, pos, String, ◌≡◌, refl, sym, ap, subst, ◌∙◌,
  false, Option, none, List, [], ◌++◌, map, ltb, length, keep_if, take, drop, append-take-drop,
  take-all, drop-drop, All, arith,
}
use banana_talk.Redis.{Redis}
use banana_talk.Sql.{Environment}
use banana_talk.Db.ReportRows.{ReportRow, Postgres, has_reason, all_rows, clamp_limit}
use banana_talk.Db.ReportRows.Pages.{IsReferenced, length-all_rows, list_reports-page}
use banana_talk.Strings.{trim_space}
use banana_talk.Strconv.{max_int64, decimal}
use banana_talk.Strconv.RoundTrip.{parse_int-decimal}
use banana_talk.Backend.{Backend}
use banana_talk.Admin.Bounds.{int64-pos}
use banana_talk.Admin.{
  AdminRequest, Item, Answer, reports_page, page_number, page_limit, page_offset, item_of, listed,
  admin_list_reports,
}

-- GET /admin/api/reports?reason=...&page=...&limit=...
abbrev pub page_request : String → ℕ → ℕ → AdminRequest
page_request reason limit page = record {
  method = "GET";
  path = "/admin/api/reports";
  reason = reason;
  page = decimal page;
  limit = decimal limit;
  login = none;
}

abbrev pub answered_items : Answer → List Item
answered_items (reports_page items total page limit total_pages) = items
answered_items _ = []

abbrev pub answered_pages : Answer → ℕ
answered_pages (reports_page items total page limit total_pages) = total_pages
answered_pages _ = 0

page_number-decimal : (k : ℕ) → 1 ≤ k → k ≤ max_int64 → page_number (decimal k) ≡ k
unfolding page_number
page_number-decimal k h small =
    let given : ltb k 1 ≡ false = ground (arith, h) in
    rw (parse_int-decimal k small) (rw given refl)

page_limit-decimal : (l : ℕ) → 1 ≤ l → l ≤ 100 → page_limit (decimal l) ≡ l
unfolding page_limit
page_limit-decimal l h small =
    let given : ltb l 1 ≡ false = ground (arith, h) in
    let few : ltb 100 l ≡ false = ground (arith, small) in
    rw (parse_int-decimal l (omega (arith, small))) (rw given (rw few refl))

clamp_limit-same : (l : ℕ) → 1 ≤ l → l ≤ 100 → clamp_limit (pos l) ≡ l
clamp_limit-same l h small =
    let given : ltb l 1 ≡ false = ground (arith, h) in
    let few : ltb 100 l ≡ false = ground (arith, small) in rw given (rw few refl)

module _ (d : Postgres) (sign : String → ℕ → Option String) {r : Redis} (env : Environment)
    (up : (n : ℕ) → env.fails n ≡ false) (reason : String) (l : ℕ) (some_limit : 1 ≤ l)
    (small_limit : l ≤ 100) where
  -- The answer to the request for the page after the first `j`.
  one_page :
      (j : ℕ) (b : Backend r)
      → (suc j) * l ≤ max_int64
      → let c = b.conn in
        let total = length (keep_if (has_reason d (trim_space reason)) c.tables.reports) in
        admin_list_reports d sign env (page_request reason l (suc j)) b ≡ (
          reports_page
              (map
                (item_of sign)
                (take l (drop (j * l) (all_rows d c.step (trim_space reason) c.tables))))
              total
              (suc j)
              l
              ((total + l - 1) / l),
          record b { conn = record c { step = c.step + 1 + 1 } },
        )
  unfolding admin_list_reports listed page_offset
  one_page j b fits =
      let whole : suc j ≤ max_int64 = omega (arith, fits, mul-le-mul_left (suc j) some_limit) in
      let before : j * l ≤ max_int64 =
        omega (arith, fits, mul-le-mul_right {m = j} {n = suc j} l (omega arith)) in
      let back : suc j - 1 ≡ j = omega arith in
      rw
        (
          page_number-decimal (suc j) (omega arith) whole,
          page_limit-decimal l some_limit small_limit,
        )
        (rw back (
          rw (int64-pos (j * l) before) (
            rw (list_reports-page d env (trim_space reason) (pos l) (pos (j * l)) b.conn up)
              (rw (clamp_limit-same l some_limit small_limit) refl))))

  -- The items on `n` pages from the one after the first `j`, asked for one after another.
  abbrev pub fetch_pages : ℕ → ℕ → Backend r → List Item
  fetch_pages zero j b = []
  fetch_pages (suc n) j b =
      let (answer, b') = admin_list_reports d sign env (page_request reason l (suc j)) b in
      answered_items answer ++ fetch_pages n (suc j) b'

  fetch_pages-rows :
      (n j : ℕ) (b : Backend r) (rows : List ReportRow)
      → ((k : ℕ) → all_rows d k (trim_space reason) b.conn.tables ≡ rows)
      → (j + n) * l ≤ max_int64
      → fetch_pages n j b ≡ map (item_of sign) (take (n * l) (drop (j * l) rows))
  fetch_pages-rows zero j b rows agree fits = rw (zero-mul l) refl
  fetch_pages-rows (suc n) j b rows agree fits =
      let moved : (suc j + n) * l ≤ max_int64 = subst (λ k. k * l ≤ max_int64) (omega arith) fits in
      let first : suc j * l ≤ max_int64 =
        le_trans (mul-le-mul_right {m = suc j} {n = suc j + n} l (omega arith)) moved in
      let head = take l (drop (j * l) rows) in
      rw (one_page j b first) (
        rw (agree b.conn.step) (
          ap (λ items. map (item_of sign) head ++ items)
            (fetch_pages-rows n (suc j) _ rows agree moved)
          ∙ sym (map-append (item_of sign) head (take (n * l) (drop (suc j * l) rows)))
          ∙ ap (map (item_of sign)) (
              ap (λ k. head ++ take (n * l) (drop k rows)) (suc-mul j l)
              ∙ ap (λ ys. head ++ take (n * l) ys) (sym (drop-drop l (j * l) rows))
              ∙ append-take-drop l (n * l) (drop (j * l) rows)
              ∙ ap (λ k. take k (drop (j * l) rows)) (omega (arith, suc-mul n l)))))

  -- While no statement fails and each report's two users have rows, if PostgreSQL gives the rows the
  -- same order in each query: the pages from 1 to the `total_pages` that the first answer names, with
  -- a limit from 1 to 100, asked for one after another, together show all rows of the query without
  -- LIMIT and OFFSET, in its order and each once; the number of reports that the filter matches is at
  -- most 2^63 - 101.
  pub fetch_pages-all_rows :
      (b : Backend r) (rows : List ReportRow)
      → ((k : ℕ) → all_rows d k (trim_space reason) b.conn.tables ≡ rows)
      → All (IsReferenced b.conn.tables.users) b.conn.tables.reports
      → length (keep_if (has_reason d (trim_space reason)) b.conn.tables.reports) + 100 ≤ max_int64
      → fetch_pages
          (answered_pages (admin_list_reports d sign env (page_request reason l 1) b).0)
          0
          b
        ≡ map (item_of sign) rows
  fetch_pages-all_rows b rows agree known few =
      let total = length (keep_if (has_reason d (trim_space reason)) b.conn.tables.reports) in
      let pages = (total + l - 1) / l in
      let parts : pages * l + (total + l - 1) % l ≡ total + l - 1 =
        div-add-mod' (total + l - 1) l in
      let rest : (total + l - 1) % l < l = mod-lt (total + l - 1) (omega (arith, some_limit)) in
      let size : length rows ≡ total =
        ap length (sym (agree 0)) ∙ length-all_rows d 0 (trim_space reason) b.conn.tables known in
      rw (one_page 0 b (omega (arith, few, small_limit))) (
        fetch_pages-rows pages 0 b rows agree
          (omega (arith, parts, few, small_limit, zero-add pages))
        ∙ ap (map (item_of sign))
            (rw (zero-mul l) (take-all (pages * l) rows (omega (arith, parts, rest, size)))))
