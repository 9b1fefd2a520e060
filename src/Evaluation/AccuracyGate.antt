-- ===== src/Evaluation/AccuracyGate.antt =====
-- buffdata/evaluation/accuracy_gate.py: the rows that are trained on, and the decision of the gate.
-- Training and the counter of tokens are PyTorch's and Python's; accuracies, gains and thresholds are
-- Python's floats, whose operations are a parameter too.
pub mod Cap
pub mod Decision
pub mod Examples
use buffdata.Prelude.{
  [], none, some, true, false, zero, suc, refl, ℕ, String, sort_by, Option, List, Bool, ltb, map,
  select, ◌∷◌, length, ◌++◌, if◌then◌else◌, ◌==◌, take, is_empty, not, ◌+◌, ◌*◌, ◌-◌, leb, ◌/◌,
  ◌&&◌, nat_eq, string_eq, contains, ◌%◌, all,
}
use Prim.Native.String.{compare as text_compare}
use Prim.Native.Nat.{Ordering}
use buffdata.Prelude.Floats.{Float, Floats}
use buffdata.Prelude.Exec.{Result, err, ok}
use buffdata.Models.Item.{PyText, Item, Labels, many, scalar, get_classification_text}

pub record Row : Type 0 where
  pub text : String
  pub label : String

pub data GateError : Type 0 where
  no_scalar_label no_labeled_text no_seed both_thresholds negative_threshold : GateError
  labels_missing : List String → GateError

abbrev pub with_row : Row → Result GateError (List Row) → Result GateError (List Row)
with_row r (err e) = err e
with_row r (ok rs) = ok (r ∷ rs)

-- The loop of `_validated_rows`; `strip` is Python's.
abbrev pub labeled_row :
    PyText → Item → Result GateError (List Row) → Option Labels → Result GateError (List Row)
labeled_row py x rest none = err no_scalar_label
labeled_row py x rest (some (many ls)) = err no_scalar_label
labeled_row py x rest (some (scalar l)) =
    let text = py.strip (get_classification_text py x) in
    if text == "" then rest else with_row (record { text = text; label = l }) rest

abbrev pub row_loop : PyText → List Item → Result GateError (List Row)
row_loop py [] = ok []
row_loop py (x ∷ xs) = labeled_row py x (row_loop py xs) x.labels

abbrev pub some_rows : Result GateError (List Row) → Result GateError (List Row)
some_rows (err e) = err e
some_rows (ok []) = err no_labeled_text
some_rows (ok (r ∷ rs)) = ok (r ∷ rs)

-- `_validated_rows`
unfoldable pub validated_rows : PyText → List Item → Result GateError (List Row)
validated_rows py xs = some_rows (row_loop py xs)

abbrev pub text_before : String → String → Bool
text_before a b = elim (text_compare a b) [ Ordering.lt ↦ true | _ ↦ false ]

-- The elements of a set, in the order of their first occurrence.
abbrev pub distinct : List String → List String
distinct [] = []
distinct (x ∷ xs) = x ∷ select (λ y. not (y == x)) (distinct xs)

-- `sorted` of a set of labels.
abbrev pub sorted_labels : List Row → List String
unfolding sort_by
sorted_labels rows = sort_by text_before (distinct (map (λ r. r.label) rows))

-- What `random.Random(seed).shuffle` does to the bucket of a label and to the selection.
pub record Shuffles : Type 0 where
  pub bucket : String → List Row → List Row
  pub selection : List Row → List Row

abbrev pub bucket_of : List Row → String → List Row
bucket_of rows label = select (λ r. r.label == label) rows

-- The loop over the labels: the first `remainder` of them give one row more.
abbrev pub selected : Shuffles → List Row → ℕ → ℕ → List String → List Row
selected sh rows per_label remainder [] = []
selected sh rows per_label remainder (l ∷ ls) =
    take (per_label + (if ltb 0 remainder then 1 else 0)) (sh.bucket l (bucket_of rows l))
    ++ selected sh rows per_label (remainder - 1) ls

-- `_stratified_cap`
unfoldable pub stratified_cap : Shuffles → List Row → ℕ → List Row
stratified_cap sh rows limit =
    if leb (length rows) limit
    then rows
    else let labels = sorted_labels rows in
      sh.selection (selected sh rows (limit / length labels) (limit % length labels) labels)

-- What PyTorch and the counters are asked for: the accuracy on the validation rows of a classifier that is
-- trained on some rows with a seed, and the tokens of the vocabulary, most frequent first.
pub record Torch : Type 0 where
  pub accuracy : List Row → List Row → List String → List String → ℕ → ℕ → Float
  pub most_common : List Row → ℕ → List String

-- `vocabulary`: a token's number is its place.
abbrev pub vocabulary : Torch → List Row → ℕ → List String
vocabulary t rows max_vocabulary = "<pad>" ∷ "<unk>" ∷ t.most_common rows (max_vocabulary - 2)

pub data Threshold : Type 0 where
  absolute relative : Float → Threshold

-- `minimum_gain`, and `minimum_relative_gain` where it is given.
pub record Minimum : Type 0 where
  pub gain : Float
  pub relative_gain : Option Float

abbrev pub chosen : Floats → Float → Option Float → Result GateError Threshold
chosen fl gain none = ok (absolute gain)
chosen fl gain (some r) =
    if not (fl.is_zero gain)
    then err both_thresholds
    else if fl.less r fl.nought
    then err negative_threshold
    else ok (relative r)

abbrev pub threshold_of : Floats → Minimum → Result GateError Threshold
threshold_of fl m = chosen fl m.gain m.relative_gain

-- One seed: the accuracy after training on the original, and on the candidate.
pub record SeedRun : Type 0 where
  pub original : Float
  pub candidate : Float

-- `delta > minimum_gain`
abbrev pub gains : Floats → Float → SeedRun → Bool
gains fl minimum r = fl.less minimum (fl.minus r.candidate r.original)

-- `meets_relative_gain`
abbrev pub gains_relative : Floats → Float → SeedRun → Bool
gains_relative fl minimum r =
    if fl.at_most r.original fl.nought
    then fl.less fl.nought r.candidate
    else fl.at_most (fl.times r.original (fl.plus fl.one minimum)) r.candidate

-- `original_mean` and `candidate_mean`
abbrev pub means : Floats → List SeedRun → SeedRun
means fl runs = record {
  original = fl.mean (map (λ r. r.original) runs);
  candidate = fl.mean (map (λ r. r.candidate) runs);
}

-- `accepted`
unfoldable pub accepted : Floats → Threshold → List SeedRun → Bool
accepted fl (absolute minimum) runs =
    gains fl minimum (means fl runs) && all (gains fl minimum) runs
accepted fl (relative minimum) runs =
    gains_relative fl minimum (means fl runs) && all (gains_relative fl minimum) runs

pub record GateReport : Type 0 where
  pub accepted : Bool
  pub original_rows : ℕ
  pub candidate_rows : ℕ
  pub validation_rows : ℕ
  pub runs : List SeedRun

abbrev pub labels_in : List Row → List String
labels_in rows = map (λ r. r.label) rows

-- The labels of the validation rows that one of the two trainings does not have.
abbrev pub missing_labels : List Row → List Row → List Row → List String
missing_labels original candidate validation =
    select (λ l. not (contains l (labels_in original) && contains l (labels_in candidate)))
      (sorted_labels validation)

-- The part of `evaluate_accuracy_gain` after the rows.
abbrev pub measured :
    Floats
    → Torch
    → Threshold
    → List ℕ
    → ℕ
    → ℕ
    → List Row
    → List Row
    → List Row
    → Result GateError GateReport
measured fl t threshold seeds epochs max_vocabulary original candidate validation =
    let missing = missing_labels original candidate validation in
    let words = vocabulary t (original ++ candidate) max_vocabulary in
    let labels = sorted_labels (original ++ (candidate ++ validation)) in
    let runs =
      map
        (λ seed. record {
          original = t.accuracy original validation words labels seed epochs;
          candidate = t.accuracy candidate validation words labels seed epochs;
        })
        seeds in
    if not (is_empty missing)
    then err (labels_missing missing)
    else ok (record {
      accepted = accepted fl threshold runs;
      original_rows = length original;
      candidate_rows = length candidate;
      validation_rows = length validation;
      runs = runs;
    })

abbrev pub and_rows :
    {A : Type 0}
    → Result GateError A
    → (A → Result GateError GateReport)
    → Result GateError GateReport
and_rows (err e) f = err e
and_rows (ok rows) f = f rows

-- `evaluate_accuracy_gain`
unfoldable pub evaluate_accuracy_gain :
    Floats
    → PyText
    → Shuffles
    → Shuffles
    → Torch
    → List Item
    → List Item
    → List Item
    → List ℕ
    → ℕ
    → Minimum
    → ℕ
    → ℕ
    → Result GateError GateReport
evaluate_accuracy_gain fl py sh sh' t original candidate validation seeds epochs minimum
      max_train_rows max_vocabulary =
    if is_empty seeds
    then err no_seed
    else and_rows (threshold_of fl minimum) (λ threshold.
      and_rows (validated_rows py original) (λ os. and_rows (validated_rows py candidate) (λ cs.
        and_rows (validated_rows py validation) (λ vs.
          measured fl t threshold seeds epochs max_vocabulary (stratified_cap sh os max_train_rows)
            (stratified_cap sh' cs max_train_rows) vs))))
