-- ===== src/Engine/Pipeline/Examples.antt =====
-- Tests of the pipeline with services that change little, and the theorems applied to them.
use buffdata.Prelude.{
  ℕ, String, Bool, Option, List, [], arith, false, refl, true, some, none, take, ◌∷◌, ◌≡◌, drop,
  ◌+◌, suc, zero,
}
use buffdata.Engine.Pipeline.{
  run, Services, Config, no_schema, start, run_stages, identifiers, stages, reject, llm, auto,
  validate, run_stage, State, run_validate, run_pii, run_profile,
}
use buffdata.Engine.Pipeline.Conservation.{total, KeepsIds, count, SameIds, total-run}
use buffdata.Engine.Validator.{validate_item}
use buffdata.Models.Item.{
  PyText, get_prompt_and_response, Labels, Item, get_classification_text, DatasetFormat,
}
use buffdata.Prelude.Json.{Fields}
use buffdata.Engine.Pipeline.Resumed.{run_file-saved}
use buffdata.Models.Codec.Examples.{codec, codec-IsFaithful}
use buffdata.Prelude.Json.{Json}
use buffdata.Prelude.Exec.{Result, ok, err}
use buffdata.Engine.Pipeline.Checkpoint.{
  Profiles, RunError, other_fingerprint, run_file, saved, loaded,
}
use buffdata.Models.Codec.{from_dict, to_dict}
use buffdata.Engine.Pipeline.Strict.{strict-run}

abbrev python : PyText
python = record { str = λ _. "text"; strip = λ s. s }

abbrev services : Services
services = record {
  plugins = λ _. [];
  scrub_batch = λ _ xs. xs;
  profile_of = λ _. no_schema;
  deduplicate_exact = λ xs. (take 1 xs, drop 1 xs);
  deduplicate_minhash = λ xs. ([], xs);
  deduplicate_semantic_local = λ xs. (xs, []);
  audit = λ xs. xs;
  refine = λ xs. xs;
  resolve_schema = λ _. no_schema;
  classify_batch = λ _ xs. xs;
}

abbrev config : Bool → Config
config strict = record {
  strict = strict;
  scrub_pii = true;
  classification_pii_mode = identifiers;
  dedup_method = "auto";
  quality_mode = llm;
  refine_below_score = 5;
  filter_min_score = 4;
  classification = auto;
  classification_confidence = 8;
}

abbrev item : String → String → Option Labels → Item
item id text labels = record {
  id = id;
  format = DatasetFormat.raw;
  instruction = none;
  input = none;
  output = none;
  messages = none;
  text = some text;
  labels = labels;
  prompt = none;
  chosen = none;
  rejected = none;
  metadata = Fields.end;
  quality_score = none;
  raw_data = Fields.end;
}

abbrev labelled : List Item
labelled = item "a" "good" (some (Labels.scalar "x")) ∷ item "b" "" (some (Labels.scalar "y")) ∷ []

SameIds-refl : (xs : List Item) → SameIds xs xs
SameIds-refl [] = tt
SameIds-refl (x ∷ xs) = (refl, SameIds-refl xs)

count-take-drop :
    (n : ℕ) (xs : List Item) (i : String) → count i (take n xs) + count i (drop n xs) ≡ count i xs
count-take-drop zero xs i = omega arith
count-take-drop (suc n) [] i = omega arith
count-take-drop (suc n) (x ∷ xs) i = omega (arith, count-take-drop n xs i)

services-KeepsIds : KeepsIds services
services-KeepsIds = record {
  scrub_batch = λ b xs i. refl;
  exact = λ xs i. count-take-drop 1 xs i;
  minhash = λ xs i. omega arith;
  semantic = λ xs i. omega arith;
  audit = SameIds-refl;
  refine = SameIds-refl;
  classify_batch = λ g xs i. refl;
}

total-run_example : total "a" (run python (config false) services (start labelled)) ≡ 1
total-run_example = total-run python (config false) services services-KeepsIds "a" (start labelled)

strict-run_example :
    ((run python (config true) services (start labelled)).accepted
      ≡ item "a" "good" (some (Labels.scalar "x")) ∷ [])
    × ((run python (config true) services (start labelled)).rejected
        ≡ reject validate "Missing usable text, instruction, prompt, or messages content."
            (item "b" "" (some (Labels.scalar "y")))
          ∷ [])
unfolding validate_item get_prompt_and_response get_classification_text
strict-run_example = strict-run python (config true) services labelled refl

abbrev profiles : Profiles
profiles = record { model_dump = λ p. Json.str "profile"; model_validate = λ j. some no_schema }

abbrev stopped : State
stopped = run_stages python (config false) services (take 3 stages) (start labelled)

abbrev resumed : String → Result RunError State
resumed fingerprint =
    run_file python (config false) services codec profiles fingerprint labelled
      (some (saved codec profiles "f" stopped))

abbrev state_of : Result RunError State → State
state_of (err e) = start []
state_of (ok s) = s

other_input_is_refused : resumed "g" ≡ err other_fingerprint
other_input_is_refused = refl

resumed_is_ok : resumed "f" ≡ ok (state_of (resumed "f"))
unfolding run run_stages run_stage run_validate run_pii run_profile to_dict from_dict validate_item
resumed_is_ok = refl

run_file-saved_example :
    (u : State) × (loaded codec profiles (saved codec profiles "f" stopped) ≡ some u)
    × (state_of (resumed "f") ≡ run_stages python (config false) services (drop 3 stages) u)
    × ((i : String) → total i (state_of (resumed "f")) ≡ count i labelled)
run_file-saved_example =
    run_file-saved python (config false) services services-KeepsIds codec profiles codec-IsFaithful
      "f" 3 labelled (state_of (resumed "f")) refl resumed_is_ok
