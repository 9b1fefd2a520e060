-- ===== src/Evaluation/AccuracyGate/Decision.antt =====
-- When the gate accepts a candidate.
use buffdata.Prelude.{
  [], true, refl, ℕ, Bool, List, ◌≡◌, All, ◌∷◌, ◌≤◌, length, arith, ◌↔◌, nat_eq, all, Option,
  is_empty, false, some, if_cases, not, none, String, contains, select, ◌&&◌, map, Bool-cases, ◌⊎◌,
  ◌++◌, inl, string_eq, inr,
}
use buffdata.Evaluation.AccuracyGate.{
  SeedRun, Threshold, absolute, gains, relative, gains_relative, accepted, evaluate_accuracy_gain,
  Torch, Minimum, threshold_of, GateError, Row, GateReport, Shuffles, chosen, and_rows, measured,
  validated_rows, stratified_cap, missing_labels, sorted_labels, means, vocabulary, labels_in,
}
use buffdata.Prelude.Exec.{Result, ok, err}
use buffdata.Models.Item.{PyText, Item}
use buffdata.Evaluation.AccuracyGate.Cap.{length-stratified_cap}
use buffdata.Prelude.Floats.{Floats, Float}
use mathlib.Core.Path.{subst}

-- Accuracies clear the threshold: the gain is over an absolute one. A relative one is reached, or where the
-- original accuracy is not over zero, the candidate's is.
abbrev pub Clears : Floats → Threshold → Float → Float → Type 0
Clears fl (absolute g) original candidate = fl.less g (fl.minus candidate original) ≡ true
Clears fl (relative g) original candidate =
    ((fl.at_most original fl.nought ≡ true) × (fl.less fl.nought candidate ≡ true))
    ⊎ ((fl.at_most original fl.nought ≡ false)
        × (fl.at_most (fl.times original (fl.plus fl.one g)) candidate ≡ true))

-- The means clear the threshold, and so does each seed.
abbrev pub AllClear : Floats → Threshold → List SeedRun → Type 0
AllClear fl threshold runs =
    Clears fl threshold (fl.mean (map (λ r. r.original) runs))
      (fl.mean (map (λ r. r.candidate) runs))
    × All (λ r. Clears fl threshold r.original r.candidate) runs

all-All :
    (test : SeedRun → Bool) (P : SeedRun → Type 0)
    → ((r : SeedRun) → (test r ≡ true) ↔ P r)
    → (rs : List SeedRun) → (all test rs ≡ true) ↔ All P rs
all-All test P same [] = ((λ h. tt), (λ h. refl))
all-All test P same (r ∷ rs) = (
  (λ h. ((same r).0 (ground (arith, h)), (all-All test P same rs).0 (ground (arith, h)))),
  (λ h. ground (arith, (same r).1 h.0, (all-All test P same rs).1 h.1)),
)

module _ (fl : Floats) where
  relative-Clears :
      (g : Float) (r : SeedRun)
      → (gains_relative fl g r ≡ true) ↔ Clears fl (relative g) r.original r.candidate
  relative-Clears g r = elim (Bool-cases (fl.at_most r.original fl.nought)) [
    | inl e ↦ (
      (λ h. inl (e, rw (gains_relative, e) at h)),
      (λ h. elim h [ inl p ↦ rw e p.1 | inr p ↦ absurd (ground (arith, e, p.0)) ]),
    )
    | inr e ↦ (
      (λ h. inr (e, rw (gains_relative, e) at h)),
      (λ h. elim h [ inl p ↦ absurd (ground (arith, e, p.0)) | inr p ↦ rw e p.1 ]),
    )
  ]

  both : {P Q : Type 0} (a b : Bool) → (a ≡ true) ↔ P → (b ≡ true) ↔ Q → (a && b ≡ true) ↔ (P × Q)
  both a b p q = (
    (λ h. (p.0 (ground (arith, h)), q.0 (ground (arith, h)))),
    (λ h. ground (arith, p.1 h.0, q.1 h.1)),
  )

  accepted-AllClear :
      (threshold : Threshold) (runs : List SeedRun)
      → (accepted fl threshold runs ≡ true) ↔ AllClear fl threshold runs
  unfolding accepted
  accepted-AllClear (absolute g) runs =
      both (gains fl g (means fl runs)) (all (gains fl g) runs) ((λ h. h), (λ h. h))
        (all-All (gains fl g) (λ r. Clears fl (absolute g) r.original r.candidate)
          (λ r. ((λ h. h), (λ h. h))) runs)
  accepted-AllClear (relative g) runs =
      both (gains_relative fl g (means fl runs)) (all (gains_relative fl g) runs)
        (relative-Clears g (means fl runs))
        (all-All (gains_relative fl g) (λ r. Clears fl (relative g) r.original r.candidate)
          (relative-Clears g) runs)

-- Just one threshold was asked for, and none that is negative.
abbrev pub Asked : Floats → Minimum → Threshold → Type 0
Asked fl m (absolute g) = (m.relative_gain ≡ none) × (m.gain ≡ g)
Asked fl m (relative g) =
    (m.relative_gain ≡ some g) × (fl.is_zero m.gain ≡ true) × (fl.less g fl.nought ≡ false)

-- A label of these rows.
abbrev pub LabelOf : List Row → String → Type 0
LabelOf rows l = contains l (labels_in rows) ≡ true

-- A report of the rows that were trained on, and the rows that were tested. The accuracies of each seed are
-- those of the two trainings with it.
pub record Judged (fl : Floats) (t : Torch) (m : Minimum) (seeds : List ℕ) (epochs words cap : ℕ)
    (original candidate validation : List Row) (report : GateReport) : Type 0 where
  pub threshold : Threshold
  pub asked : Asked fl m threshold
  pub counted :
      (report.original_rows ≡ length original)
      × (report.candidate_rows ≡ length candidate)
      × (report.validation_rows ≡ length validation)
  pub few : (length original ≤ cap) × (length candidate ≤ cap)
  pub labels : All (λ l. LabelOf original l × LabelOf candidate l) (sorted_labels validation)
  pub trained :
      let vocabulary = vocabulary t (original ++ candidate) words in
      let names = sorted_labels (original ++ (candidate ++ validation)) in
      report.runs
      ≡ map
          (λ seed. record {
            original = t.accuracy original validation vocabulary names seed epochs;
            candidate = t.accuracy candidate validation vocabulary names seed epochs;
          })
          seeds
  pub decided : (report.accepted ≡ true) ↔ AllClear fl threshold report.runs

-- What an answer says: a report judges rows that the three datasets have been read as.
abbrev pub Answers :
    Floats
    → PyText
    → Shuffles
    → Shuffles
    → Torch
    → List Item
    → List Item
    → List Item
    → List ℕ
    → ℕ
    → Minimum
    → ℕ
    → ℕ
    → Result GateError GateReport
    → Type 0
Answers fl py sh sh' t original candidate validation seeds epochs m cap words (err e) = Unit
Answers fl py sh sh' t original candidate validation seeds epochs m cap words (ok report) =
    (os : List Row) × (cs : List Row) × (vs : List Row) × (validated_rows py original ≡ ok os)
    × (validated_rows py candidate ≡ ok cs)
    × (validated_rows py validation ≡ ok vs)
    × (is_empty seeds ≡ false)
    × Judged fl t m seeds epochs words cap (stratified_cap sh os cap) (stratified_cap sh' cs cap) vs
        report

all-missing :
    (original candidate : List Row) (ls : List String)
    → is_empty
        (select (λ l. not (contains l (labels_in original) && contains l (labels_in candidate))) ls)
      ≡ true
    → All (λ l. LabelOf original l × LabelOf candidate l) ls
all-missing original candidate [] h = tt
all-missing original candidate (l ∷ ls) h =
    elim (Bool-cases (contains l (labels_in original) && contains l (labels_in candidate))) [
      | inl e ↦
          ((ground (arith, e), ground (arith, e)), all-missing original candidate ls (rw e at h))
      | inr e ↦ absurd (ground (arith, (rw e at h)))
    ]

gate_ok : {A : Type 0} {a b : A} → Path (Result GateError A) (ok a) (ok b) → a ≡ b
gate_ok h = cc

gate_err : {A : Type 0} {e : GateError} {a : A} → Path (Result GateError A) (err e) (ok a) → ⊥
gate_err h = cc

chosen-Asked :
    (fl : Floats) (m : Minimum) (o : Option Float) (threshold : Threshold)
    → m.relative_gain ≡ o
    → chosen fl m.gain o ≡ ok threshold
    → Asked fl m threshold
chosen-Asked fl m none threshold e h = subst (Asked fl m) (gate_ok h) (e, refl)
chosen-Asked fl m (some r) threshold e h = elim (Bool-cases (fl.is_zero m.gain)) [
  | inr z ↦ absurd (gate_err (rw z at h))
  | inl z ↦ elim (Bool-cases (fl.less r fl.nought)) [
    | inl n ↦ absurd (gate_err (rw (z, n) at h))
    | inr n ↦ subst (Asked fl m) (gate_ok (rw (z, n) at h)) (e, z, n)
  ]
]

-- A property of answers that errors have.
and_rows_lem :
    {A : Type 0} (P : Result GateError GateReport → Type 0) (r : Result GateError A)
    (f : A → Result GateError GateReport)
    → ((e : GateError) → P (err e))
    → ((a : A) → r ≡ ok a → P (f a))
    → P (and_rows r f)
and_rows_lem P (err e) f raised h = raised e
and_rows_lem P (ok a) f raised h = h a refl

module _ (fl : Floats) (py : PyText) (sh sh' : Shuffles) (t : Torch)
    (original candidate validation : List Item) (seeds : List ℕ) (epochs : ℕ) (m : Minimum)
    (cap words : ℕ) (same : (rs : List Row) → length (sh.selection rs) ≡ length rs)
    (same' : (rs : List Row) → length (sh'.selection rs) ≡ length rs) where
  abbrev Says : Result GateError GateReport → Type 0
  Says r = Answers fl py sh sh' t original candidate validation seeds epochs m cap words r

  measured-Says :
      (threshold : Threshold) (os cs vs : List Row)
      → threshold_of fl m ≡ ok threshold
      → validated_rows py original ≡ ok os
      → validated_rows py candidate ≡ ok cs
      → validated_rows py validation ≡ ok vs
      → is_empty seeds ≡ false
      → Says (
          measured fl t threshold seeds epochs words
            (stratified_cap sh os cap)
            (stratified_cap sh' cs cap)
            vs)
  measured-Says threshold os cs vs asked o c v any_seed =
      if_cases Says
        (not (is_empty (missing_labels (stratified_cap sh os cap) (stratified_cap sh' cs cap) vs)))
        _ _ (λ e. tt)
        (λ e. (
          os,
          cs,
          vs,
          o,
          c,
          v,
          any_seed,
          record {
            threshold = threshold;
            asked = chosen-Asked fl m m.relative_gain threshold refl asked;
            counted = (refl, refl, refl);
            few = (length-stratified_cap sh os cap same, length-stratified_cap sh' cs cap same');
            labels =
                all-missing (stratified_cap sh os cap) (stratified_cap sh' cs cap)
                  (sorted_labels vs) (ground (arith, e));
            trained = refl;
            decided = accepted-AllClear fl threshold _;
          },
        ))

  -- Where a shuffle keeps the number of rows, a report trains on the rows of the two datasets, no more than
  -- `max_train_rows` of each, with the same vocabulary and labels for both, and has the two accuracies for
  -- each seed. Each label of the validation rows is one of the original and of the candidate that are
  -- trained on. One threshold was asked for, and the report accepts the candidate just where the mean
  -- accuracies clear it and the accuracies of every seed do, with Python's floats, whatever they compute.
  pub evaluate_accuracy_gain-Answers :
      Answers fl py sh sh' t original candidate validation seeds epochs m cap words (
        evaluate_accuracy_gain fl py sh sh' t original candidate validation seeds epochs m cap
          words)
  unfolding evaluate_accuracy_gain
  evaluate_accuracy_gain-Answers =
      if_cases Says (is_empty seeds) _ _ (λ e. tt)
        (λ e.
          and_rows_lem Says (threshold_of fl m) _ (λ f. tt)
            (λ threshold k.
              and_rows_lem Says (validated_rows py original) _ (λ f. tt)
                (λ os o.
                  and_rows_lem Says (validated_rows py candidate) _ (λ f. tt)
                    (λ cs c.
                      and_rows_lem Says (validated_rows py validation) _ (λ f. tt)
                        (λ vs v. measured-Says threshold os cs vs k o c v e)))))
