-- ===== src/Models/Edit.antt =====
-- buffdata/models/schemas.py: `DatasetItem.update_content`, the change of a record's text by its
-- format. Where the program changes a record, here it is the changed record.
pub mod Reads
pub mod Examples
use buffdata.Prelude.{ℕ, String, Option, Bool, some, List, none, ◌∷◌, [], if◌then◌else◌, ◌++◌}
use buffdata.Models.Item.{
  ChatMessage, DatasetFormat, Item, is_assistant, is_user, alpaca, set_field, chat, dpo, raw,
  custom,
}
use buffdata.Prelude.Json.{Fields, Json}

-- `if new is not None: field = new`
abbrev pub or_keep : {A : Type 0} → Option A → Option A → Option A
or_keep none old = old
or_keep (some new) old = some new

abbrev pub consed : ChatMessage → Option (List ChatMessage) → Option (List ChatMessage)
consed m none = none
consed m (some ms) = some (m ∷ ms)

-- The first message that passes the test gets the text; none is the case that there is no such one.
abbrev pub set_first : (ChatMessage → Bool) → String → List ChatMessage → Option (List ChatMessage)
set_first p text [] = none
set_first p text (m ∷ ms) =
    let rest = set_first p text ms in
    if p m then some (record m { content = text } ∷ ms) else consed m rest

-- As `set_first`, from the end.
abbrev pub set_last : (ChatMessage → Bool) → String → List ChatMessage → Option (List ChatMessage)
set_last p text [] = none
set_last p text (m ∷ ms) = elim (set_last p text ms) [
  | some rest ↦ some (m ∷ rest)
  | none ↦ if p m then some (record m { content = text } ∷ ms) else none
]

abbrev pub message : String → String → ChatMessage
message role content = record { role = role; content = content }

abbrev pub with_prompt : Option String → List ChatMessage → List ChatMessage
with_prompt none ms = ms
with_prompt (some p) ms = elim (set_first is_user p ms) [
  | none ↦ message "user" p ∷ ms
  | some new ↦ new
]

abbrev pub with_response : Option String → List ChatMessage → List ChatMessage
with_response none ms = ms
with_response (some r) ms = elim (set_last is_assistant r ms) [
  | none ↦ ms ++ message "assistant" r ∷ []
  | some new ↦ new
]

abbrev pub messages_of : Option (List ChatMessage) → List ChatMessage
messages_of none = []
messages_of (some ms) = ms

abbrev pub set_text : String → Option String → Fields → Fields
set_text k none fs = fs
set_text k (some s) fs = set_field k (Json.str s) fs

abbrev pub input_kept : Option String → Option String → Option String
input_kept none old = old
input_kept (some p) old = none

abbrev pub updated : DatasetFormat → Option String → Option String → Item → Item
updated alpaca p r x = record x {
  instruction = or_keep p x.instruction;
  input = input_kept p x.input;
  output = or_keep r x.output;
}
updated chat p r x = record x {
  messages = some (with_response r (with_prompt p (messages_of x.messages)));
}
updated dpo p r x = record x { prompt = or_keep p x.prompt; chosen = or_keep r x.chosen }
updated raw p r x = record x { text = or_keep r (or_keep p x.text) }
updated custom p r x = record x {
  raw_data = set_text "response" r (set_text "prompt" p x.raw_data);
}

-- `update_content`
unfoldable pub update_content : Option String → Option String → Item → Item
update_content p r x = updated x.format p r x
