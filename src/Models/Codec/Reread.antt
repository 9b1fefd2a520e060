-- ===== src/Models/Codec/Reread.antt =====
-- A record that is written and read again.
use buffdata.Prelude.{
  [], some, true, false, refl, String, Bool, List, ◌∷◌, ◌≡◌, ◌≢◌, ◌==◌, not, string_eq, ◌∙◌, ap,
  if_cases, contains,
}
use buffdata.Prelude.Json.{Json, Fields}
use buffdata.Models.Item.{
  Item, DatasetFormat, QualityScore, Labels, get_field, set_field, json_true, has_true, or_empty,
  without,
}
use buffdata.Models.Codec.{
  Codec, to_dict, columns, texts_set, maybe_set, labels_written, metadata_written, quality_written,
  labels_value, quality_value, present_or,
}
use buffdata.Models.Codec.Lookups.{
  get_field-set_field, get_field-set_other, get_field-maybe_other, get_field-maybe_set,
  get_field-without_other,
}

-- What the codec of values keeps: written labels and scores read as they were, neither is null or
-- empty, and the text of a text is that text.
pub record IsFaithful (c : Codec) : Type 0 where
  pub labels : (l : Labels) → labels_value c (some (c.labels_json l)) ≡ some (some l)
  pub scores : (q : QualityScore) → quality_value c (some (c.score_json q)) ≡ some (some q)
  pub texts : (s : String) → c.str (Json.str s) ≡ s
  pub named : (j : Json) → json_true j ≡ true → c.str j ≢ ""
  pub fresh : c.fresh_id ≢ ""

-- The keys that a record or its format writes or pops, and any other column.
abbrev pub own_keys : List String
own_keys =
    "id" ∷ "_buffdata_id" ∷ "_buffdata_metadata" ∷ "_buffdata_quality" ∷ "labels" ∷ "messages"
    ∷ "instruction" ∷ "input" ∷ "output" ∷ "prompt" ∷ "chosen" ∷ "rejected" ∷ "text" ∷ []

abbrev pub is_other : String → Bool
is_other k = not (contains k own_keys)

-- The same record for its readers: a text that was missing may be empty.
pub record IsAlike (x y : Item) : Type 0 where
  pub id : y.id ≡ x.id
  pub format : y.format ≡ x.format
  pub labels : y.labels ≡ x.labels
  pub metadata : y.metadata ≡ x.metadata
  pub quality : y.quality_score ≡ x.quality_score
  pub messages : y.messages ≡ x.messages
  pub instruction : or_empty y.instruction ≡ or_empty x.instruction
  pub input : or_empty y.input ≡ or_empty x.input
  pub output : or_empty y.output ≡ or_empty x.output
  pub prompt : or_empty y.prompt ≡ or_empty x.prompt
  pub chosen : or_empty y.chosen ≡ or_empty x.chosen
  pub rejected : or_empty y.rejected ≡ or_empty x.rejected
  pub text : or_empty y.text ≡ or_empty x.text
  pub others : (k : String) → is_other k ≡ true → get_field k y.raw_data ≡ get_field k x.raw_data

pub columns-other :
    (k : String) (d : Fields)
    → ("id" == k) ≡ false
    → ("_buffdata_id" == k) ≡ false
    → ("_buffdata_metadata" == k) ≡ false
    → ("_buffdata_quality" == k) ≡ false
    → get_field k (columns d) ≡ get_field k d
columns-other k d i b m q =
    let d2 = without "_buffdata_quality" (without "_buffdata_metadata" d) in
    let kept =
      get_field-without_other k "_buffdata_quality" (without "_buffdata_metadata" d) q
      ∙ get_field-without_other k "_buffdata_metadata" d m in
    let one = get_field-without_other k "id" d2 i in
    if_cases (λ (fs : Fields). get_field k fs ≡ get_field k d) (has_true "id" d2) (without "id" d2)
      (without "_buffdata_id" (without "id" d2)) (λ e. one ∙ kept)
      (λ e. get_field-without_other k "_buffdata_id" (without "id" d2) b ∙ one ∙ kept)

module _ (c : Codec) (x : Item) where
  -- The four layers of `to_dict`.
  abbrev pub texts_layer : Fields
  texts_layer = texts_set x.format x (set_field "id" (Json.str x.id) x.raw_data)

  abbrev labels_layer : Fields
  labels_layer = maybe_set "labels" (labels_written c x.labels) texts_layer

  abbrev metadata_layer : Fields
  metadata_layer = maybe_set "_buffdata_metadata" (metadata_written x.metadata) labels_layer

  pub layers :
      (k : String)
      → ("_buffdata_metadata" == k) ≡ false
      → ("_buffdata_quality" == k) ≡ false
      → get_field k (to_dict c x) ≡ get_field k labels_layer
  unfolding to_dict
  layers k m q =
      get_field-maybe_other k "_buffdata_quality" (quality_written c x.quality_score) metadata_layer
        q
      ∙ get_field-maybe_other k "_buffdata_metadata" (metadata_written x.metadata) labels_layer m

  pub texts_other :
      (f : DatasetFormat) (k : String) (fs : Fields)
      → ("messages" == k) ≡ false
      → ("instruction" == k) ≡ false
      → ("input" == k) ≡ false
      → ("output" == k) ≡ false
      → ("prompt" == k) ≡ false
      → ("chosen" == k) ≡ false
      → ("rejected" == k) ≡ false
      → ("text" == k) ≡ false
      → get_field k (texts_set f x fs) ≡ get_field k fs
  texts_other DatasetFormat.alpaca k fs m i n o p ch r t =
      get_field-set_other k "output" _ _ o
      ∙ get_field-set_other k "input" _ _ n
      ∙ get_field-set_other k "instruction" _ _ i
  texts_other DatasetFormat.chat k fs m i n o p ch r t = get_field-set_other k "messages" _ _ m
  texts_other DatasetFormat.dpo k fs m i n o p ch r t =
      get_field-set_other k "rejected" _ _ r
      ∙ get_field-set_other k "chosen" _ _ ch
      ∙ get_field-set_other k "prompt" _ _ p
  texts_other DatasetFormat.raw k fs m i n o p ch r t = get_field-set_other k "text" _ _ t
  texts_other DatasetFormat.custom k fs m i n o p ch r t = refl

  -- Under "id" and the labels' keys the formats write nothing.
  pub reread_id : get_field "id" (to_dict c x) ≡ some (Json.str x.id)
  reread_id =
      layers "id" refl refl
      ∙ get_field-maybe_other "id" "labels" (labels_written c x.labels) texts_layer refl
      ∙ texts_other x.format "id" _ refl refl refl refl refl refl refl refl
      ∙ get_field-set_field "id" (Json.str x.id) x.raw_data

  pub reread_metadata :
      get_field "_buffdata_metadata" (to_dict c x)
      ≡ present_or (metadata_written x.metadata) (get_field "_buffdata_metadata" x.raw_data)
  unfolding to_dict
  reread_metadata =
      get_field-maybe_other "_buffdata_metadata" "_buffdata_quality"
        (quality_written c x.quality_score) metadata_layer refl
      ∙ get_field-maybe_set "_buffdata_metadata" (metadata_written x.metadata) labels_layer
      ∙ ap (present_or (metadata_written x.metadata)) (
          get_field-maybe_other "_buffdata_metadata" "labels" (labels_written c x.labels)
            texts_layer refl
          ∙ texts_other x.format "_buffdata_metadata" _ refl refl refl refl refl refl refl refl
          ∙ get_field-set_other "_buffdata_metadata" "id" (Json.str x.id) x.raw_data refl)

  pub reread_quality :
      get_field "_buffdata_quality" (to_dict c x)
      ≡ present_or (quality_written c x.quality_score) (get_field "_buffdata_quality" x.raw_data)
  unfolding to_dict
  reread_quality =
      get_field-maybe_set "_buffdata_quality" (quality_written c x.quality_score) metadata_layer
      ∙ ap (present_or (quality_written c x.quality_score)) (
          get_field-maybe_other "_buffdata_quality" "_buffdata_metadata"
            (metadata_written x.metadata) labels_layer refl
          ∙ get_field-maybe_other "_buffdata_quality" "labels" (labels_written c x.labels)
              texts_layer refl
          ∙ texts_other x.format "_buffdata_quality" _ refl refl refl refl refl refl refl refl
          ∙ get_field-set_other "_buffdata_quality" "id" (Json.str x.id) x.raw_data refl)
