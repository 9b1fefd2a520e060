-- ===== src/Models/Item.antt =====
-- buffdata/models/schemas.py: `DatasetItem` and its text by format. A score
-- is a whole number of a fixed small unit. `str` of a JSON value and `str.strip` are Python's.
use buffdata.Prelude.{
  ℕ, String, ◌∷◌, Bool, List, if◌then◌else◌, Option, [], some, ◌==◌, false, select, none, string_eq,
  map, ◌||◌, true, not, ◌&&◌,
}
use Prim.Native.String.{◌++◌ as append}
use buffdata.Prelude.Json.{Json, Fields, Items}

pub data DatasetFormat : Type 0 where
  alpaca chat raw dpo custom : DatasetFormat

pub record ChatMessage : Type 0 where
  pub role : String
  pub content : String

pub record QualityScore : Type 0 where
  pub overall_score : ℕ
  pub is_safe : Bool

-- `str`, `int` or a list of these; a label is kept as its text.
pub data Labels : Type 0 where
  scalar : String → Labels
  many : List String → Labels

pub record Item : Type 0 where
  pub id : String
  pub format : DatasetFormat
  pub instruction : Option String
  pub input : Option String
  pub output : Option String
  pub messages : Option (List ChatMessage)
  pub text : Option String
  pub labels : Option Labels
  pub prompt : Option String
  pub chosen : Option String
  pub rejected : Option String
  pub metadata : Fields
  pub quality_score : Option QualityScore
  pub raw_data : Fields

-- What the model takes from Python: the text of a value, and a text without its outer white space.
pub record PyText : Type 0 where
  pub str : Json → String
  pub strip : String → String

-- `d.get(key)`
abbrev pub get_field : String → Fields → Option Json
get_field k Fields.end = none
get_field k (Fields.field j v fs) = if j == k then some v else get_field k fs

-- `d[key] = value`
abbrev pub set_field : String → Json → Fields → Fields
set_field k v Fields.end = Fields.field k v Fields.end
set_field k v (Fields.field j w fs) =
    if j == k then Fields.field k v fs else Fields.field j w (set_field k v fs)

-- `d` less a key
abbrev pub without : String → Fields → Fields
without key Fields.end = Fields.end
without key (Fields.field k v fs) =
    let rest = without key fs in if k == key then rest else Fields.field k v rest

-- Python's truth of a value.
abbrev pub json_true : Json → Bool
json_true Json.null = false
json_true (Json.bool b) = b
json_true (Json.num n) = not (n == "0") && not (n == "0.0")
json_true (Json.str s) = not (s == "")
json_true (Json.arr Items.nil) = false
json_true (Json.arr (Items.cons x xs)) = true
json_true (Json.obj Fields.end) = false
json_true (Json.obj (Fields.field k v fs)) = true

-- `bool(d.get(key))`
abbrev pub has_true : String → Fields → Bool
has_true k fs = elim (get_field k fs) [ none ↦ false | some v ↦ json_true v ]

-- `s or ""`
abbrev pub or_empty : Option String → String
or_empty none = ""
or_empty (some s) = s

-- `"\n\n".join(parts)`
abbrev pub join_blocks : List String → String
join_blocks [] = ""
join_blocks (p ∷ []) = p
join_blocks (p ∷ q ∷ ps) = append p (append "\n\n" (join_blocks (q ∷ ps)))

abbrev pub is_user : ChatMessage → Bool
is_user m = (m.role == "user") || (m.role == "human")

abbrev pub is_assistant : ChatMessage → Bool
is_assistant m = (m.role == "assistant") || (m.role == "gpt") || (m.role == "model")

abbrev pub contents : (ChatMessage → Bool) → Option (List ChatMessage) → String
contents p none = ""
contents p (some ms) = join_blocks (map (λ (m : ChatMessage). m.content) (select p ms))

-- `str(d.get(k1) or d.get(k2) or … or "")`
abbrev pub first_true : PyText → List String → Fields → String
first_true py [] fs = ""
first_true py (k ∷ ks) fs = elim (get_field k fs) [
  | none ↦ first_true py ks fs
  | some v ↦ if json_true v then py.str v else first_true py ks fs
]

abbrev alpaca_prompt : String → String → String
alpaca_prompt p input =
    if input == ""
    then p
    else if p == ""
    then input
    else append p (append "\n\nContext / Input:\n" input)

abbrev pub prompt_of : PyText → DatasetFormat → Item → String × String
prompt_of py DatasetFormat.alpaca x =
    (alpaca_prompt (or_empty x.instruction) (or_empty x.input), or_empty x.output)
prompt_of py DatasetFormat.chat x = (contents is_user x.messages, contents is_assistant x.messages)
prompt_of py DatasetFormat.dpo x = (or_empty x.prompt, or_empty x.chosen)
prompt_of py DatasetFormat.raw x = ("", or_empty x.text)
prompt_of py DatasetFormat.custom x = (
  first_true py ("prompt" ∷ "instruction" ∷ "input" ∷ []) x.raw_data,
  first_true py ("response" ∷ "output" ∷ "text" ∷ []) x.raw_data,
)

-- `get_prompt_and_response`
unfoldable pub get_prompt_and_response : PyText → Item → String × String
get_prompt_and_response py x = prompt_of py x.format x

abbrev non_empty : List String → List String
non_empty ps = select (λ s. not (s == "")) ps

-- The first of the keys with a value whose text is not blank.
abbrev pub first_text : PyText → List String → Fields → String
first_text py [] fs = ""
first_text py (k ∷ ks) fs = elim (get_field k fs) [
  | none ↦ first_text py ks fs
  | some Json.null ↦ first_text py ks fs
  | some v ↦ if py.strip (py.str v) == "" then first_text py ks fs else py.str v
]

abbrev pub classification_text_of : PyText → DatasetFormat → Item → String
classification_text_of py DatasetFormat.raw x = or_empty x.text
classification_text_of py DatasetFormat.chat x = contents is_user x.messages
classification_text_of py DatasetFormat.alpaca x =
    join_blocks (non_empty (or_empty x.instruction ∷ or_empty x.input ∷ []))
classification_text_of py DatasetFormat.dpo x = or_empty x.prompt
classification_text_of py DatasetFormat.custom x =
    first_text py ("text" ∷ "content" ∷ "query" ∷ "prompt" ∷ "instruction" ∷ "input" ∷ [])
      x.raw_data

-- `get_classification_text`
unfoldable pub get_classification_text : PyText → Item → String
get_classification_text py x = classification_text_of py x.format x

abbrev pub is_labeled : Item → Bool
is_labeled x = elim x.labels [ none ↦ false | some l ↦ true ]
