-- ===== src/Optimizers/GatedGenerator/Examples.antt =====
-- Tests of the generator with a trainer whose accuracy grows with the pool.
use buffdata.Prelude.{ℕ, String, ◌≡◌, Option, ◌∷◌, length, [], none, leb, ◌⊎◌, List, some, refl}
use buffdata.Optimizers.GatedGenerator.{generate, Trainer, AccuracyGateReport}
use buffdata.Models.Item.{Item, DatasetFormat}
use buffdata.Prelude.Json.{Fields}
use buffdata.Optimizers.GatedGenerator.Outcome.{Promises, generate-Promises}

abbrev blank : String → Item
blank id = record {
  id = id;
  format = DatasetFormat.raw;
  instruction = none;
  input = none;
  output = none;
  messages = none;
  text = none;
  labels = none;
  prompt = none;
  chosen = none;
  rejected = none;
  metadata = Fields.end;
  quality_score = none;
  raw_data = Fields.end;
}

abbrev trainer : ℕ → Trainer
trainer target = record {
  augment = λ _ _ _ xs. blank "new" ∷ xs;
  evaluate_accuracy_gain = λ xs. record {
    original_accuracy_mean = 1;
    candidate_accuracy_mean = length xs;
    accepted = leb target (length xs);
  };
  diagnose_candidate_errors = λ _. record { per_label_accuracy = []; misclassified_examples = [] };
}

abbrev used : Option (List Item × AccuracyGateReport) → ℕ
used none = 0
used (some (pool, r)) = r.iterations_used

second_is_enough : used (generate (trainer 3) 2 5 (blank "a" ∷ [])) ≡ 2
unfolding generate
second_is_enough = refl

generate-Promises_example :
    ((◌≡◌ {A = ℕ} 2 0) × (generate (trainer 9) 2 2 (blank "a" ∷ []) ≡ none))
    ⊎ ((pool : List Item) × (r : AccuracyGateReport) × (generate (trainer 9) 2 2 (blank "a" ∷ [])
          ≡ some (pool, r))
        × Promises (trainer 9) 2 r.passed pool r)
generate-Promises_example = generate-Promises (trainer 9) 2 2 (blank "a" ∷ [])
