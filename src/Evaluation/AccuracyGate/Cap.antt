-- ===== src/Evaluation/AccuracyGate/Cap.antt =====
-- The cap on the rows that are trained on.
use native.Mathlib.Nat.{div-add-mod'}
use buffdata.Prelude.{
  [], zero, suc, ℕ, String, ◌*◌, List, ◌≡◌, ◌/◌, length, take, ◌+◌, ◌∷◌, ◌%◌, arith, ◌≤◌,
  if◌then◌else◌, ltb, length-append, ◌-◌, string_eq, if_cases, leb, leb→le,
}
use buffdata.Evaluation.AccuracyGate.{
  Shuffles, Row, selected, sorted_labels, bucket_of, stratified_cap,
}

length-take-le : {A : Type 0} (n : ℕ) (xs : List A) → length (take n xs) ≤ n
length-take-le zero xs = ground arith
length-take-le (suc n) [] = ground arith
length-take-le (suc n) (x ∷ xs) = ground (arith, length-take-le n xs)

mul_suc : (n q : ℕ) → q * suc n ≡ q * n + q
mul_suc n q = omega arith

module _ (sh : Shuffles) (rows : List Row) where
  selected-length :
      (q r : ℕ) (ls : List String) → length (selected sh rows q r ls) ≤ q * length ls + r
  selected-length q r [] = omega arith
  selected-length q r (l ∷ ls) =
      let more = take (q + (if ltb 0 r then 1 else 0)) (sh.bucket l (bucket_of rows l)) in
      ground (
        arith,
        length-append more (selected sh rows q (r - 1) ls),
        selected-length q (r - 1) ls,
        length-take-le (q + (if ltb 0 r then 1 else 0)) (sh.bucket l (bucket_of rows l)),
        mul_suc (length ls) q,
      )

pub length-stratified_cap :
    (sh : Shuffles) (rows : List Row) (limit : ℕ)
    → ((rs : List Row) → length (sh.selection rs) ≡ length rs)
    → length (stratified_cap sh rows limit) ≤ limit
unfolding stratified_cap
length-stratified_cap sh rows limit same =
    if_cases (λ rs. length rs ≤ limit) (leb (length rows) limit) rows
      (sh.selection (
        selected sh rows (limit / length (sorted_labels rows)) (limit % length (sorted_labels rows))
          (sorted_labels rows)))
      (λ e. leb→le (length rows) limit e)
      (λ e.
        let labels = sorted_labels rows in
        let q = limit / length labels in
        let r = limit % length labels in
        let picked = selected sh rows q r labels in
        ground (
          arith,
          same picked,
          selected-length sh rows q r labels,
          div-add-mod' limit (length labels),
        ))
