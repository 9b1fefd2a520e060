-- ===== src/Integrations/Sharding/Examples.antt =====
-- Tests of the partitions of a small dataset.
use buffdata.Prelude.{[], none, some, true, refl, ℕ, String, List, Option, ◌≡◌, ◌∷◌, map}
use buffdata.Integrations.Sharding.Merged.{Partitions, partition_dataset-Partitions}
use buffdata.Integrations.Sharding.{merge_partition_results, partition_dataset, ShardError, Output}
use buffdata.Prelude.Exec.{Result, err, ok}
use buffdata.Models.Item.{Item, Labels, DatasetFormat}
use buffdata.Prelude.Json.{Fields}

abbrev row : String → Option Labels → Item
row id labels = record {
  id = id;
  format = DatasetFormat.raw;
  instruction = none;
  input = none;
  output = none;
  messages = none;
  text = some id;
  labels = labels;
  prompt = none;
  chosen = none;
  rejected = none;
  metadata = Fields.end;
  quality_score = none;
  raw_data = Fields.end;
}

abbrev rows : List Item
rows =
    row "a" (some (Labels.scalar "x"))
    ∷ row "b" (some (Labels.scalar "x"))
    ∷ row "c" none
    ∷ row "d" (some (Labels.scalar "y"))
    ∷ row "e" (some (Labels.scalar "x"))
    ∷ []

abbrev ids : Result ShardError (List (List Item)) → List (List String)
ids (err e) = []
ids (ok files) = map (λ f. map (λ (x : Item). x.id) f) files

by_label : ids (partition_dataset 2 true rows) ≡ ("a" ∷ "c" ∷ "d" ∷ "e" ∷ []) ∷ ("b" ∷ []) ∷ []
unfolding partition_dataset
by_label = refl

partition_dataset-Partitions_example : Partitions 2 rows (partition_dataset 2 true rows)
partition_dataset-Partitions_example = partition_dataset-Partitions 2 true rows

abbrev output : List Item → List (String × ℕ) → Output
output items reasons = record {
  rows = items;
  rejected = [];
  input_tokens = 5;
  output_tokens = 1;
  total_tokens = 6;
  rejection_reasons = reasons;
}

abbrev outputs : List Output
outputs =
    output (row "a" none ∷ []) (("short", 2) ∷ [])
    ∷ output (row "b" none ∷ row "c" none ∷ []) (("long", 1) ∷ ("short", 3) ∷ [])
    ∷ []

merged_twice : (merge_partition_results outputs).rejection_reasons ≡ ("short", 5) ∷ ("long", 1) ∷ []
unfolding merge_partition_results
merged_twice = refl
