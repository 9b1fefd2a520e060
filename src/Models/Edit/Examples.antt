-- ===== src/Models/Edit/Examples.antt =====
-- Tests of the change of a record's text.
use buffdata.Prelude.{
  String, ◌≢◌, arith, Bool, some, true, ◌≡◌, ap, none, eq_iff, false, ◌∷◌, [], refl,
}
use buffdata.Prelude.Json.{Json, Fields}
use buffdata.Models.Item.{PyText, get_prompt_and_response, DatasetFormat, custom, Item, chat}
use buffdata.Models.Edit.{update_content}
use buffdata.Models.Edit.Reads.{get_prompt_and_response-update_content}

-- Python's `str`, on texts.
abbrev text_of : Json → String
text_of (Json.str s) = s
text_of _ = "other"

abbrev python : PyText
python = record { str = text_of; strip = λ s. s }

abbrev item_of : DatasetFormat → Item
item_of f = record {
  id = "a";
  format = f;
  instruction = some "old";
  input = some "context";
  output = none;
  messages = some (record { role = "human"; content = "hi" } ∷ []);
  text = none;
  labels = none;
  prompt = none;
  chosen = none;
  rejected = none;
  metadata = Fields.end;
  quality_score = none;
  raw_data = Fields.field "prompt" (Json.str "old") Fields.end;
}

chat_gets_both :
    (update_content (some "new") (some "yes") (item_of chat)).messages
    ≡ some (
        record { role = "human"; content = "new" }
        ∷ record { role = "assistant"; content = "yes" }
        ∷ [])
unfolding update_content
chat_gets_both = refl

abbrev is_chat : DatasetFormat → Bool
is_chat chat = true
is_chat _ = false

not_chat : custom ≢ chat
not_chat e = ground (arith, ap is_chat e)

not_empty : ◌≢◌ {A = String} "new" ""
not_empty = ground (arith, eq_iff "new" "")

get_prompt_and_response-update_content_example :
    get_prompt_and_response python (update_content (some "new") (some "new") (item_of custom))
    ≡ ("new", "new")
get_prompt_and_response-update_content_example =
    get_prompt_and_response-update_content python (item_of custom) "new" "new" (λ _. refl) not_empty
      not_empty not_chat
