-- ===== src/Models/Codec.antt =====
-- buffdata/models/schemas.py: `DatasetItem.from_dict` and `to_dict`. A value that the model's fields do not
-- take raises, which is none here.
mod Lookups
pub mod Again
mod Branches
mod Formats
pub mod Roundtrip
pub mod Reread
pub mod Examples
use buffdata.Prelude.{
  [], none, some, true, false, zero, suc, refl, ℕ, String, Bool, Option, List, ◌∷◌, ◌==◌,
  if◌then◌else◌, ◌&&◌, ◌||◌, not, string_eq,
}
use buffdata.Prelude.Json.{Json, Items, Fields, nil, cons, end, field}
use buffdata.Models.Item.{
  Item, ChatMessage, DatasetFormat, QualityScore, Labels, get_field, set_field, json_true, has_true,
  or_empty, alpaca, chat, raw, dpo, custom,
}
use buffdata.Models.Item.{without}

-- What is asked of Python and of the model's validation: the text of a value, a new id, and the labels and
-- the scores that a value is read as, none where it is refused, with the values that they are written as.
pub record Codec : Type 0 where
  pub str : Json → String
  pub fresh_id : String
  pub labels_of : Json → Option Labels
  pub labels_json : Labels → Json
  pub score_of : Json → Option QualityScore
  pub score_json : QualityScore → Json

abbrev pub and_some : {A B : Type 0} → Option A → (A → Option B) → Option B
and_some none f = none
and_some (some a) f = f a

-- A field that is a text or `None`.
abbrev pub text_value : Option Json → Option (Option String)
text_value none = some none
text_value (some Json.null) = some none
text_value (some (Json.str s)) = some (some s)
text_value (some j) = none

abbrev pub some_of : {A : Type 0} → Option A → Option (Option A)
some_of none = none
some_of (some a) = some (some a)

abbrev pub labels_value : Codec → Option Json → Option (Option Labels)
labels_value c none = some none
labels_value c (some Json.null) = some none
labels_value c (some j) = some_of (c.labels_of j)

abbrev pub quality_value : Codec → Option Json → Option (Option QualityScore)
quality_value c none = some none
quality_value c (some j) = if json_true j then some_of (c.score_of j) else some none

abbrev pub metadata_value : Option Json → Option Fields
metadata_value none = some end
metadata_value (some (Json.obj fs)) = some fs
metadata_value (some j) = none

abbrev pub true_or : Codec → Option Json → String → String
true_or c none other = other
true_or c (some j) other = if json_true j then c.str j else other

abbrev pub id_value : Codec → Fields → String
id_value c d = true_or c (get_field "id" d) (true_or c (get_field "_buffdata_id" d) c.fresh_id)

-- `d_copy`, from which the keys of the record itself are popped.
abbrev pub id_popped : Fields → Fields
id_popped d = if has_true "id" d then without "id" d else without "_buffdata_id" (without "id" d)

abbrev pub columns : Fields → Fields
columns d = id_popped (without "_buffdata_quality" (without "_buffdata_metadata" d))

abbrev pub present_or : Option Json → Option Json → Option Json
present_or none other = other
present_or (some j) other = some j

abbrev pub labels_column : Fields → Option Json
labels_column fs = present_or (get_field "labels" fs) (
    present_or (get_field "label" fs)
      (present_or (get_field "category" fs) (get_field "target" fs)))

abbrev pub message_of : Option Json → Option Json → Option ChatMessage
message_of (some (Json.str role)) (some (Json.str content)) =
    some (record { role = role; content = content })
message_of _ _ = none

abbrev pub message_value : Json → Option ChatMessage
message_value (Json.obj fs) = message_of (get_field "role" fs) (get_field "content" fs)
message_value j = none

abbrev pub messages_value : Items → Option (List ChatMessage)
messages_value nil = some []
messages_value (cons j js) =
    let rest = messages_value js in
    and_some (message_value j) (λ m. and_some rest (λ ms. some (m ∷ ms)))

abbrev pub list_of : Option Json → Option Items
list_of (some (Json.arr xs)) = some xs
list_of _ = none

abbrev pub present : Option Json → Bool
present none = false
present (some j) = true

abbrev pub has : String → Fields → Bool
has k fs = present (get_field k fs)

-- The branches of `from_dict`.
abbrev pub format_of : Option Items → Bool → Bool → Bool → DatasetFormat
format_of (some xs) pair instructed texted = chat
format_of none pair instructed texted =
    if pair then dpo else if instructed then alpaca else if texted then raw else custom

abbrev pub detected : Fields → DatasetFormat
detected fs =
    format_of (list_of (get_field "messages" fs)) (has "chosen" fs && has "rejected" fs)
      (has "instruction" fs || has "output" fs) (has "text" fs)

-- The record without its texts.
abbrev pub bare :
    DatasetFormat → String → Option Labels → Fields → Option QualityScore → Fields → Item
bare format id labels metadata quality fs = record {
  id = id;
  format = format;
  instruction = none;
  input = none;
  output = none;
  messages = none;
  text = none;
  labels = labels;
  prompt = none;
  chosen = none;
  rejected = none;
  metadata = metadata;
  quality_score = quality;
  raw_data = fs;
}

abbrev pub chat_value : Option Items → Option (List ChatMessage)
chat_value none = none
chat_value (some xs) = messages_value xs

abbrev pub with_texts : DatasetFormat → Fields → Item → Option Item
with_texts DatasetFormat.chat fs x =
    and_some (chat_value (list_of (get_field "messages" fs)))
      (λ ms. some (record x { messages = some ms }))
with_texts DatasetFormat.dpo fs x = and_some (text_value (get_field "prompt" fs)) (λ p.
    and_some (text_value (get_field "chosen" fs)) (λ ch.
      and_some (text_value (get_field "rejected" fs))
        (λ r. some (record x { prompt = p; chosen = ch; rejected = r }))))
with_texts DatasetFormat.alpaca fs x = and_some (text_value (get_field "instruction" fs)) (λ i.
    and_some (text_value (get_field "input" fs)) (λ n.
      and_some (text_value (get_field "output" fs))
        (λ o. some (record x { instruction = i; input = n; output = o }))))
with_texts DatasetFormat.raw fs x =
    and_some (text_value (get_field "text" fs)) (λ t. some (record x { text = t }))
with_texts DatasetFormat.custom fs x = some x

-- `from_dict`
unfoldable pub from_dict : Codec → Fields → Option Item
from_dict c d = and_some (metadata_value (get_field "_buffdata_metadata" d)) (λ metadata.
    and_some (quality_value c (get_field "_buffdata_quality" d)) (λ quality.
      and_some (labels_value c (labels_column (columns d))) (λ labels.
        with_texts (detected (columns d)) (columns d)
          (bare (detected (columns d)) (id_value c d) labels metadata quality (columns d)))))

-- `if value is not None: result[key] = value`
abbrev pub maybe_set : String → Option Json → Fields → Fields
maybe_set key none fs = fs
maybe_set key (some j) fs = set_field key j fs

abbrev pub text_json : Option String → Json
text_json s = Json.str (or_empty s)

abbrev pub message_json : ChatMessage → Json
message_json m =
    Json.obj (field "role" (Json.str m.role) (field "content" (Json.str m.content) end))

abbrev pub messages_items : List ChatMessage → Items
messages_items [] = nil
messages_items (m ∷ ms) = cons (message_json m) (messages_items ms)

abbrev pub messages_json : Option (List ChatMessage) → Json
messages_json none = Json.arr nil
messages_json (some ms) = Json.arr (messages_items ms)

abbrev pub texts_set : DatasetFormat → Item → Fields → Fields
texts_set DatasetFormat.alpaca x fs =
    set_field "output" (text_json x.output)
      (set_field "input" (text_json x.input) (set_field "instruction" (text_json x.instruction) fs))
texts_set DatasetFormat.chat x fs = set_field "messages" (messages_json x.messages) fs
texts_set DatasetFormat.dpo x fs =
    set_field "rejected" (text_json x.rejected)
      (set_field "chosen" (text_json x.chosen) (set_field "prompt" (text_json x.prompt) fs))
texts_set DatasetFormat.raw x fs = set_field "text" (text_json x.text) fs
texts_set DatasetFormat.custom x fs = fs

abbrev pub labels_written : Codec → Option Labels → Option Json
labels_written c none = none
labels_written c (some l) = some (c.labels_json l)

abbrev pub metadata_written : Fields → Option Json
metadata_written end = none
metadata_written (field k v fs) = some (Json.obj (field k v fs))

abbrev pub quality_written : Codec → Option QualityScore → Option Json
quality_written c none = none
quality_written c (some q) = some (c.score_json q)

-- `to_dict`
unfoldable pub to_dict : Codec → Item → Fields
to_dict c x = maybe_set "_buffdata_quality" (quality_written c x.quality_score) (
    maybe_set "_buffdata_metadata" (metadata_written x.metadata) (
      maybe_set "labels" (labels_written c x.labels)
        (texts_set x.format x (set_field "id" (Json.str x.id) x.raw_data))))
