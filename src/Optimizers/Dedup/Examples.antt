-- ===== src/Optimizers/Dedup/Examples.antt =====
-- Tests of deduplication on a few records.
use buffdata.Prelude.{
  String, List, ◌∷◌, if◌then◌else◌, [], ◌≡◌, ◌==◌, none, string_eq, some, map, nat_eq, refl,
}
use buffdata.Optimizers.Dedup.{
  Texts, deduplicate_exact, deduplicate_minhash, fingerprint, content, get_shingles, near_dup,
}
use buffdata.Models.Item.{
  Item, PyText, get_prompt_and_response, DatasetFormat, get_classification_text,
}
use buffdata.Optimizers.Dedup.Kept.{
  Separated, deduplicate_minhash-Separated, deduplicate_exact-Separated,
}
use buffdata.Prelude.Json.{Fields}

abbrev python : PyText
python = record { str = λ _. "text"; strip = λ s. s }

-- Hashes and similarities that tell a few texts apart.
abbrev texts : Texts
texts = record {
  xxh64 = λ s. if s == " red" then 1 else if s == " blue" then 2 else 3;
  words = λ s. s ∷ [];
  similarity = λ a b. if a == b then 1000 else 0;
  show = λ _. "1.000";
}

abbrev raw_item : String → String → Item
raw_item id text = record {
  id = id;
  format = DatasetFormat.raw;
  instruction = none;
  input = none;
  output = none;
  messages = none;
  text = some text;
  labels = none;
  prompt = none;
  chosen = none;
  rejected = none;
  metadata = Fields.end;
  quality_score = none;
  raw_data = Fields.end;
}

abbrev colours : List Item
colours = raw_item "a" "red" ∷ raw_item "b" "blue" ∷ raw_item "c" "red" ∷ []

keeps_two : map (λ x. x.id) (deduplicate_exact python texts colours).0 ≡ "a" ∷ "b" ∷ []
unfolding deduplicate_exact get_prompt_and_response get_classification_text
keeps_two = refl

drops_one : map (λ x. x.id) (deduplicate_minhash python texts 85 3 colours).1 ≡ "c" ∷ []
unfolding deduplicate_minhash get_prompt_and_response get_classification_text
drops_one = refl

deduplicate_exact-Separated_example :
    Separated (fingerprint python texts) (λ a b. b == a) (deduplicate_exact python texts colours)
deduplicate_exact-Separated_example = deduplicate_exact-Separated python texts colours

deduplicate_minhash-Separated_example :
    Separated
      (λ x. get_shingles texts 3 (content python x))
      (near_dup 85)
      (deduplicate_minhash python texts 85 3 colours)
deduplicate_minhash-Separated_example = deduplicate_minhash-Separated python texts 85 3 colours
