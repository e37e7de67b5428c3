-- ===== src/Db/ReportRows/Sorted.antt =====
-- A PostgreSQL that sorts by insertion and compares texts as they are: it shows that what is assumed
-- of ORDER BY can be met.
use banana_talk.Prelude.{
  ◌≤◌, ◌≡◌, refl, ◌∙◌, Bool, List, [], ◌∷◌, ◌==◌, leb, if◌then◌else◌, length, keep_if, All, All-map,
  inl, inr, Bool-cases, arith,
}
use banana_talk.Db.ReportRows.{ReportRow, Newest, Postgres}

abbrev pub insert_row : ReportRow → List ReportRow → List ReportRow
insert_row x [] = x ∷ []
insert_row x (y ∷ ys) =
    let rest = insert_row x ys in if leb y.created_at x.created_at then x ∷ y ∷ ys else y ∷ rest

abbrev pub sort_rows : List ReportRow → List ReportRow
sort_rows [] = []
sort_rows (x ∷ xs) = insert_row x (sort_rows xs)

swapped :
    (p : ReportRow → Bool) (x y : ReportRow) (xs ys : List ReportRow)
    → length (keep_if p xs) ≡ length (keep_if p (x ∷ ys))
    → length (keep_if p (y ∷ xs)) ≡ length (keep_if p (x ∷ y ∷ ys))
swapped p x y xs ys h = ground (arith, h)

insert_row-same :
    (p : ReportRow → Bool) (x : ReportRow) (xs : List ReportRow)
    → length (keep_if p (insert_row x xs)) ≡ length (keep_if p (x ∷ xs))
insert_row-same p x [] = refl
insert_row-same p x (y ∷ ys) = elim (Bool-cases (leb y.created_at x.created_at)) [
  | inl here ↦ rw here refl
  | inr later ↦ rw later (swapped p x y (insert_row x ys) ys (insert_row-same p x ys))
]

counted :
    (p : ReportRow → Bool) (x : ReportRow) (xs ys : List ReportRow)
    → length (keep_if p xs) ≡ length (keep_if p ys)
    → length (keep_if p (x ∷ xs)) ≡ length (keep_if p (x ∷ ys))
counted p x xs ys h = ground (arith, h)

pub sort_rows-same :
    (p : ReportRow → Bool) (rows : List ReportRow)
    → length (keep_if p (sort_rows rows)) ≡ length (keep_if p rows)
sort_rows-same p [] = refl
sort_rows-same p (x ∷ xs) =
    insert_row-same p x (sort_rows xs) ∙ counted p x (sort_rows xs) xs (sort_rows-same p xs)

All-insert_row :
    (P : ReportRow → Type 0) (x : ReportRow) (xs : List ReportRow)
    → P x
    → All P xs
    → All P (insert_row x xs)
All-insert_row P x [] h hs = (h, tt)
All-insert_row P x (y ∷ ys) h (k, ks) = elim (Bool-cases (leb y.created_at x.created_at)) [
  | inl here ↦ rw here (h, (k, ks))
  | inr later ↦ rw later (k, All-insert_row P x ys h ks)
]

insert_row-Newest : (x : ReportRow) (xs : List ReportRow) → Newest xs → Newest (insert_row x xs)
insert_row-Newest x [] h = (tt, tt)
insert_row-Newest x (y ∷ ys) (h, hs) = elim (Bool-cases (leb y.created_at x.created_at)) [
  | inl here ↦
      let le : y.created_at ≤ x.created_at = ground (arith, here) in
      rw here (
        (
          (
            le,
            All-map (λ z. z.created_at ≤ y.created_at) (λ z. z.created_at ≤ x.created_at) ys
                (λ z k. omega (arith, k, le)) h,
          ),
          (h, hs),
        ))
  | inr later ↦ rw later (
    All-insert_row (λ z. z.created_at ≤ y.created_at) x ys (ground (arith, later)) h,
    insert_row-Newest x ys hs,
  )
]

pub sort_rows-Newest : (rows : List ReportRow) → Newest (sort_rows rows)
sort_rows-Newest [] = tt
sort_rows-Newest (x ∷ xs) = insert_row-Newest x (sort_rows xs) (sort_rows-Newest xs)

abbrev pub sorted : Postgres
sorted = record {
  ilike = λ reason pattern. reason == pattern;
  order = λ n rows. sort_rows rows;
  order_same = λ n rows p. sort_rows-same p rows;
  order_newest = λ n rows. sort_rows-Newest rows;
}
