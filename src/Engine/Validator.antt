-- ===== src/Engine/Validator.antt =====
-- buffdata/engine/validator.py: the errors of a record. What approved plugins find comes from their
-- own code and is a parameter.
use buffdata.Prelude.{
  String, Bool, Option, List, true, ◌∷◌, false, [], some, ◌==◌, is_empty, ◌&&◌, none, ◌++◌, not,
  string_eq,
}
use buffdata.Models.Item.{
  DatasetFormat, get_prompt_and_response, get_classification_text, PyText, ChatMessage, Item,
  or_empty,
}

abbrev error_if : Bool → String → List String
error_if true e = e ∷ []
error_if false e = []

abbrev pub is_format : DatasetFormat → DatasetFormat → Bool
is_format DatasetFormat.alpaca DatasetFormat.alpaca = true
is_format DatasetFormat.chat DatasetFormat.chat = true
is_format DatasetFormat.raw DatasetFormat.raw = true
is_format DatasetFormat.dpo DatasetFormat.dpo = true
is_format DatasetFormat.custom DatasetFormat.custom = true
is_format _ _ = false

abbrev no_messages : Option (List ChatMessage) → Bool
no_messages none = true
no_messages (some ms) = is_empty ms

-- `validate_item`
unfoldable pub validate_item : PyText → (Item → List String) → Item → List String
unfolding get_prompt_and_response get_classification_text
validate_item py plugins x =
    let (prompt, response) = get_prompt_and_response py x in
    error_if ((prompt == "") && (response == "") && (get_classification_text py x == ""))
      "Missing usable text, instruction, prompt, or messages content."
    ++ (error_if
          (is_format x.format DatasetFormat.alpaca
            && not (or_empty x.instruction == "")
            && (or_empty x.output == ""))
          "Instruction format detected but output is missing."
        ++ (error_if (is_format x.format DatasetFormat.chat && no_messages x.messages)
              "Chat format detected but messages is empty."
            ++ plugins x))
