-- ===== src/Evaluation/AccuracyGate/Examples.antt =====
-- Tests of the gate with one seed that does not clear the threshold.
use buffdata.Prelude.{
  nat_eq, [], none, some, refl, ℕ, String, List, length, ◌+◌, ◌∷◌, sort_by, insert_by, ◌≡◌, ◌*◌,
  ltb, true, false, leb, ◌-◌, Option, ◌/◌, Bool, ◌==◌,
}
use buffdata.Models.Item.{get_classification_text, Item, PyText, DatasetFormat, scalar}
use buffdata.Evaluation.AccuracyGate.Decision.{evaluate_accuracy_gain-Answers, Answers}
use buffdata.Evaluation.AccuracyGate.{
  Torch, Shuffles, stratified_cap, Row, Minimum, evaluate_accuracy_gain, validated_rows, GateError,
  accepted, GateReport,
}
use buffdata.Prelude.Json.{Fields}
use buffdata.Prelude.Exec.{Result, err, ok}
use buffdata.Prelude.Floats.{Floats}

abbrev py : PyText
py = record { str = λ j. ""; strip = λ s. s }

abbrev text_item : String → String → Item
text_item text label = record {
  id = text;
  format = DatasetFormat.raw;
  instruction = none;
  input = none;
  output = none;
  messages = none;
  text = some text;
  labels = some (scalar label);
  prompt = none;
  chosen = none;
  rejected = none;
  metadata = Fields.end;
  quality_score = none;
  raw_data = Fields.end;
}

abbrev in_order : Shuffles
in_order = record { bucket = λ l rs. rs; selection = λ rs. rs }

-- Floats as hundredths; a mean is rounded down.
abbrev sum : List ℕ → ℕ
sum [] = 0
sum (x ∷ xs) = x + sum xs

abbrev hundredths : Floats
hundredths = record {
  nought = 0;
  one = 100;
  less = ltb;
  at_most = leb;
  plus = λ a b. a + b;
  minus = λ a b. a - b;
  times = λ a b. a * b / 100;
  divide = λ a b. a * 100 / b;
  quotient = λ a b. a * 100 / b;
  is_zero = λ a. a == 0;
  mean = λ xs. sum xs / length xs;
}

-- The more rows a classifier is trained on, the more it gets right; the seed is added.
abbrev counting : Torch
counting = record {
  accuracy = λ rows validation words labels seed epochs. length rows * 10 + seed;
  most_common = λ rows n. [];
}

abbrev small : List Item
small = text_item "a" "x" ∷ text_item "b" "y" ∷ []

abbrev large : List Item
large = text_item "c" "x" ∷ text_item "" "y" ∷ small

abbrev at_least : ℕ → Minimum
at_least n = record { gain = 0; relative_gain = some n }

abbrev row : String → String → Row
row text label = record { text = text; label = label }

two_of_three :
    stratified_cap in_order (row "c" "x" ∷ row "a" "x" ∷ row "b" "y" ∷ []) 2
    ≡ row "c" "x" ∷ row "b" "y" ∷ []
unfolding stratified_cap sort_by insert_by
two_of_three = refl

abbrev answer : ℕ → Result GateError GateReport
answer n =
    evaluate_accuracy_gain hundredths py in_order in_order counting small large small (0 ∷ 9 ∷ []) 6
      (at_least n) 3 100

-- 20 and 29 of a hundred for the original, 30 and 39 for the candidate.
abbrev is_accepted : Result GateError GateReport → Option Bool
is_accepted (err e) = none
is_accepted (ok report) = some report.accepted

less_for_one_seed : is_accepted (answer 40) ≡ some false
unfolding evaluate_accuracy_gain validated_rows stratified_cap accepted sort_by insert_by
    get_classification_text
less_for_one_seed = refl

enough_for_both : is_accepted (answer 20) ≡ some true
unfolding evaluate_accuracy_gain validated_rows stratified_cap accepted sort_by insert_by
    get_classification_text
enough_for_both = refl

evaluate_accuracy_gain-Answers_example :
    Answers hundredths py in_order in_order counting small large small
      (0 ∷ 9 ∷ [])
      6
      (at_least 20)
      3
      100
      (answer 20)
evaluate_accuracy_gain-Answers_example =
    evaluate_accuracy_gain-Answers hundredths py in_order in_order counting small large small
      (0 ∷ 9 ∷ []) 6 (at_least 20) 3 100 (λ rs. refl) (λ rs. refl)
