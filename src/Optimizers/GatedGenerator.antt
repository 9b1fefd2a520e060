-- ===== src/Optimizers/GatedGenerator.antt =====
-- buffdata/optimizers/gated_generator.py: `AccuracyGatedGenerator.generate`, the loop that generates
-- records until a trained classifier gains enough. Training, diagnosis and generation are a record
-- of functions. Accuracies are whole numbers of a small unit.
pub mod Outcome
pub mod Examples
use buffdata.Prelude.{
  ℕ, String, true, Option, List, Bool, sort_by, false, none, if◌then◌else◌, ◌∷◌, map, some, suc,
  ltb, ◌++◌, length, [], take, ◌==◌, zero, string_eq,
}
use buffdata.Models.Item.{Item}

-- What the loop reads of the result of `evaluate_accuracy_gain`.
pub record GateResult : Type 0 where
  pub original_accuracy_mean : ℕ
  pub candidate_accuracy_mean : ℕ
  pub accepted : Bool

pub record Diagnostics : Type 0 where
  pub per_label_accuracy : List (String × ℕ)
  pub misclassified_examples : List (String × List String)

-- The iteration and the weak labels with their exemplars go into the prompt of the generation.
pub record Trainer : Type 0 where
  pub augment : ℕ → List String → List (String × List String) → List Item → List Item
  pub evaluate_accuracy_gain : List Item → GateResult
  pub diagnose_candidate_errors : List Item → Diagnostics

-- A relative gain: the candidate's accuracy and the original's, or none where the original's is 0.
pub record RelativeGain : Type 0 where
  pub candidate : ℕ
  pub original : ℕ

pub record IterationMetric : Type 0 where
  pub iteration : ℕ
  pub pool_size : ℕ
  pub accuracy : ℕ
  pub relative_gain : Option RelativeGain
  pub weak_labels : List String
  pub accepted : Bool

pub record AccuracyGateReport : Type 0 where
  pub baseline_accuracy : ℕ
  pub final_accuracy : ℕ
  pub relative_gain : Option RelativeGain
  pub iterations_used : ℕ
  pub passed : Bool
  pub per_iteration : List IterationMetric

-- The variables of the loop.
pub record LoopState : Type 0 where
  pub pool : List Item
  pub best_pool : List Item
  pub best_accuracy : Option ℕ
  pub baseline_accuracy : Option ℕ
  pub per_iteration : List IterationMetric
  pub weak_labels : List String
  pub hard_exemplars : List (String × List String)

abbrev pub relative_gain_of : GateResult → Option RelativeGain
relative_gain_of g =
    if ltb 0 g.original_accuracy_mean
    then some
        (record { candidate = g.candidate_accuracy_mean; original = g.original_accuracy_mean })
    else none

-- `a if b is None else b`, and `b or 0.0` with `a` 0.
abbrev pub or_default : ℕ → Option ℕ → ℕ
or_default a none = a
or_default a (some b) = b

-- `best_accuracy is None or accuracy > best_accuracy`
abbrev pub improves : ℕ → Option ℕ → Bool
improves accuracy none = true
improves accuracy (some best) = ltb best accuracy

abbrev pub metric : ℕ → List Item → List String → GateResult → IterationMetric
metric iteration candidate weak g = record {
  iteration = iteration;
  pool_size = length candidate;
  accuracy = g.candidate_accuracy_mean;
  relative_gain = relative_gain_of g;
  weak_labels = weak;
  accepted = g.accepted;
}

-- The state after the evaluation of a candidate.
abbrev pub evaluated : ℕ → List Item → GateResult → LoopState → LoopState
evaluated iteration candidate g s =
    let better = improves g.candidate_accuracy_mean s.best_accuracy in
    record s {
      pool = candidate;
      best_pool = if better then candidate else s.best_pool;
      best_accuracy = if better then some g.candidate_accuracy_mean else s.best_accuracy;
      baseline_accuracy = some (or_default g.original_accuracy_mean s.baseline_accuracy);
      per_iteration = s.per_iteration ++ metric iteration candidate s.weak_labels g ∷ [];
    }

abbrev pub exemplars_of : List (String × List String) → String → List String
exemplars_of [] label = []
exemplars_of (e ∷ es) label = if e.0 == label then e.1 else exemplars_of es label

-- `[label for label, _ in ranked[:weak_class_count]]`, the weakest labels first.
unfoldable pub weakest : ℕ → Diagnostics → List String
unfolding sort_by
weakest weak_class_count d =
    map (λ p. p.0) (take weak_class_count (sort_by (λ a b. ltb a.1 b.1) d.per_label_accuracy))

abbrev pub diagnosed : ℕ → Diagnostics → LoopState → LoopState
diagnosed weak_class_count d s = record s {
  weak_labels = weakest weak_class_count d;
  hard_exemplars =
      map (λ l. (l, exemplars_of d.misclassified_examples l)) (weakest weak_class_count d);
}

abbrev pub passed_report : ℕ → GateResult → LoopState → AccuracyGateReport
passed_report iteration g s = record {
  baseline_accuracy = or_default 0 s.baseline_accuracy;
  final_accuracy = g.candidate_accuracy_mean;
  relative_gain = relative_gain_of g;
  iterations_used = iteration;
  passed = true;
  per_iteration = s.per_iteration;
}

-- `per_iteration[-1].relative_gain`
abbrev pub last_gain : List IterationMetric → Option RelativeGain
last_gain [] = none
last_gain (m ∷ []) = m.relative_gain
last_gain (m ∷ n ∷ ms) = last_gain (n ∷ ms)

abbrev pub failed_report : ℕ → LoopState → AccuracyGateReport
failed_report max_iterations s = record {
  baseline_accuracy = or_default 0 s.baseline_accuracy;
  final_accuracy = or_default (or_default 0 s.baseline_accuracy) s.best_accuracy;
  relative_gain = last_gain s.per_iteration;
  iterations_used = max_iterations;
  passed = false;
  per_iteration = s.per_iteration;
}

-- `for iteration in range(1, max_iterations + 1)`: as many iterations as are left.
module _ (t : Trainer) (weak_class_count max_iterations : ℕ) where
  abbrev pub next_state : ℕ → LoopState → LoopState
  next_state iteration s =
      let candidate = t.augment iteration s.weak_labels s.hard_exemplars s.pool in
      evaluated iteration candidate (t.evaluate_accuracy_gain candidate) s

  abbrev pub iterate : ℕ → ℕ → LoopState → List Item × AccuracyGateReport
  iterate zero iteration s = (s.best_pool, failed_report max_iterations s)
  iterate (suc left) iteration s =
      let e = next_state iteration s in
      let g = t.evaluate_accuracy_gain e.pool in
      let diagnosis = diagnosed weak_class_count (t.diagnose_candidate_errors e.pool) e in
      let rest =
        iterate left (suc iteration) (if ltb iteration max_iterations then diagnosis else e) in
      if g.accepted then (e.pool, passed_report iteration g e) else rest

abbrev pub initial : List Item → LoopState
initial items = record {
  pool = items;
  best_pool = items;
  best_accuracy = none;
  baseline_accuracy = none;
  per_iteration = [];
  weak_labels = [];
  hard_exemplars = [];
}

-- `generate`: none is the `ValueError` that there is no iteration.
unfoldable pub generate : Trainer → ℕ → ℕ → List Item → Option (List Item × AccuracyGateReport)
generate t weak_class_count max_iterations items =
    if ltb max_iterations 1
    then none
    else some (iterate t weak_class_count max_iterations max_iterations 1 (initial items))
