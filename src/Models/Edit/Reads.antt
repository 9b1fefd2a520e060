-- ===== src/Models/Edit/Reads.antt =====
-- What is read back of a record after a change of its text.
use buffdata.Prelude.{
  String, ◌≢◌, Option, List, ◌==◌, ◌≡◌, some, true, false, ap, arith, ◌∙◌, ◌∷◌, eq_iff, refl,
  string_eq, [],
}
use buffdata.Models.Item.{
  get_prompt_and_response, DatasetFormat, PyText, raw, Item, json_true, get_field, set_field,
  alpaca, chat, first_true, prompt_of, dpo, custom,
}
use buffdata.Prelude.Json.{Json, Fields}
use buffdata.Models.Edit.{update_content, updated}

get_field-set_field :
    (k : String) (v : Json) (fs : Fields) → get_field k (set_field k v fs) ≡ some v
get_field-set_field k v Fields.end = ground (arith, eq_iff k k)
get_field-set_field k v (Fields.field j w fs) =
    ground (arith, eq_iff k k, eq_iff j k, get_field-set_field k v fs)

get_field-set_field_other :
    (j k : String) (v : Json) (fs : Fields)
    → (k == j) ≡ false
    → get_field j (set_field k v fs) ≡ get_field j fs
get_field-set_field_other j k v Fields.end ne = rw ne refl
get_field-set_field_other j k v (Fields.field i w fs) ne =
    ground (arith, eq_iff i k, eq_iff i j, eq_iff k j, get_field-set_field_other j k v fs ne)

true_text : (s : String) → s ≢ "" → json_true (Json.str s) ≡ true
true_text s ne = ground (arith, eq_iff s "")

first_true-found :
    (py : PyText) (k : String) (ks : List String) (fs : Fields) (s : String)
    → ((t : String) → py.str (Json.str t) ≡ t)
    → s ≢ ""
    → get_field k fs ≡ some (Json.str s)
    → first_true py (k ∷ ks) fs ≡ s
first_true-found py k ks fs s text ne found = rw (first_true, found, true_text s ne) (text s)

-- What is read of a record that was given a prompt and a response: a raw record has no prompt.
abbrev pub read_back : DatasetFormat → String → String → String × String
read_back raw p r = ("", r)
read_back _ p r = (p, r)

pair : {a b c d : String} → a ≡ c → b ≡ d → ◌≡◌ {A = String × String} (a, b) (c, d)
pair e f = cc

read_updated :
    (py : PyText) (f : DatasetFormat) (x : Item) (p r : String)
    → ((t : String) → py.str (Json.str t) ≡ t)
    → p ≢ ""
    → r ≢ ""
    → f ≢ chat
    → prompt_of py f (updated f (some p) (some r) x) ≡ read_back f p r
read_updated py alpaca x p r text np nr other = refl
read_updated py chat x p r text np nr other = absurd (other refl)
read_updated py dpo x p r text np nr other = refl
read_updated py raw x p r text np nr other = refl
read_updated py custom x p r text np nr other =
    let fs = set_field "prompt" (Json.str p) x.raw_data in
    pair
      (first_true-found py "prompt" ("instruction" ∷ "input" ∷ [])
        (set_field "response" (Json.str r) fs) p text np
        (get_field-set_field_other "prompt" "response" (Json.str r) fs refl
          ∙ get_field-set_field "prompt" (Json.str p) x.raw_data))
      (first_true-found py "response" ("output" ∷ "text" ∷ [])
        (set_field "response" (Json.str r) fs) r text nr
        (get_field-set_field "response" (Json.str r) fs))

updated-format :
    (f : DatasetFormat) (p r : Option String) (x : Item) → (updated f p r x).format ≡ x.format
updated-format alpaca p r x = refl
updated-format chat p r x = refl
updated-format dpo p r x = refl
updated-format raw p r x = refl
updated-format custom p r x = refl

-- A record of any format but chat that is given a prompt and a response, neither empty, is read back
-- with them; a raw record has no prompt. Python's `str` of a text must be that text.
pub get_prompt_and_response-update_content :
    (py : PyText) (x : Item) (p r : String)
    → ((t : String) → py.str (Json.str t) ≡ t)
    → p ≢ ""
    → r ≢ ""
    → x.format ≢ chat
    → get_prompt_and_response py (update_content (some p) (some r) x) ≡ read_back x.format p r
unfolding get_prompt_and_response update_content
get_prompt_and_response-update_content py x p r text np nr other =
    ap (λ f. prompt_of py f (updated x.format (some p) (some r) x))
      (updated-format x.format (some p) (some r) x)
    ∙ read_updated py x.format x p r text np nr other
