-- ===== src/Admin/Bounds.antt =====
-- The numbers that `adminListReports` of backend/admin.go makes of the query parameters.
use native.Mathlib.Nat.{mul-le-mul_left, le_trans}
use banana_talk.Prelude.{
  ℕ, ◌+◌, ◌-◌, ◌*◌, ◌%◌, ◌≤◌, ◌<◌, ◌⊎◌, ℤ, pos, negsuc, String, ◌≡◌, refl, inl, inr, false, ltb,
  if◌then◌else◌, Bool-cases, arith,
}
use banana_talk.Strconv.{parse_int, number, max_int64, max_uint64}
use banana_talk.Strconv.Range.{IsSmall, parse_int-IsSmall}
use banana_talk.Admin.{admin_max_limit, at_least_one, page_number, page_limit, int64, page_offset}

at_least_one-bounds :
    (d : ℕ) (x : ℤ)
    → 1 ≤ d
    → d ≤ 20
    → IsSmall x
    → (1 ≤ at_least_one d x) × (at_least_one d x ≤ max_int64)
at_least_one-bounds d (negsuc n) h k small = (h, omega (arith, k))
at_least_one-bounds d (pos n) h k small = elim (Bool-cases (ltb n 1)) [
  | inl none_given ↦ rw none_given (h, omega (arith, k))
  | inr given ↦ rw given (ground (arith, given), small)
]

pub int64-pos : (n : ℕ) → n ≤ max_int64 → int64 n ≡ pos n
int64-pos n h =
    let same : n % (max_uint64 + 1) ≡ n = omega (arith, h) in
    let fits : ltb max_int64 n ≡ false = ground (arith, h) in rw same (rw fits refl)

capped :
    (n : ℕ)
    → 1 ≤ n
    → (1 ≤ (if ltb admin_max_limit n then admin_max_limit else n))
      × ((if ltb admin_max_limit n then admin_max_limit else n) ≤ admin_max_limit)
capped n h = (ground (arith, h), ground (arith, h))

fits :
    (page limit : ℕ)
    → page ≤ 92233720368547758
    → limit ≤ admin_max_limit
    → (page - 1) * limit ≤ max_int64
fits page limit h k = le_trans (mul-le-mul_left (page - 1) k) (omega (arith, h))

-- Whatever the texts of the parameters: the page is at least 1 and an int64, the limit is between 1
-- and 100, and the offset is that of the page, without overflow, unless the page is over
-- 92233720368547758.
pub page_offset-bounds :
    (page limit : String)
    → (1 ≤ page_number page)
      × (page_number page ≤ max_int64)
      × (1 ≤ page_limit limit)
      × (page_limit limit ≤ admin_max_limit)
      × ((92233720368547758 < page_number page)
          ⊎ (page_offset (page_number page) (page_limit limit)
              ≡ pos ((page_number page - 1) * page_limit limit)))
unfolding page_number page_limit page_offset
page_offset-bounds page limit =
    let p = number (parse_int page) in
    let l = number (parse_int limit) in
    let (p1, p2) = at_least_one-bounds 1 p (omega arith) (omega arith) (parse_int-IsSmall page) in
    let (l1, l2) = at_least_one-bounds 20 l (omega arith) (omega arith) (parse_int-IsSmall limit) in
    let (c1, c2) = capped (at_least_one 20 l) l1 in
    (
      p1,
      p2,
      c1,
      c2,
      elim (Bool-cases (ltb 92233720368547758 (at_least_one 1 p))) [
        | inl late ↦ inl (ground (arith, late))
        | inr early ↦ inr (int64-pos _ (fits (at_least_one 1 p) _ (ground (arith, early)) c2))
      ],
    )
