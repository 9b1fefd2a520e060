-- ===== src/Models/Codec/Roundtrip.antt =====
-- A record that was read is written and read again.
use buffdata.Prelude.{
  none, some, false, refl, String, Option, ◌≡◌, ◌≢◌, ◌==◌, string_eq, Bool-cases, inl, inr, ◌∙◌,
  if_cases, some-inj, none-ne-some,
}
use buffdata.Prelude.Json.{Json, Fields}
use buffdata.Models.Item.{
  Item, DatasetFormat, QualityScore, Labels, get_field, json_true, has_true, without,
}
use buffdata.Models.Codec.{
  Codec, from_dict, columns, id_popped, labels_column, detected, list_of, with_texts, bare,
  id_value, and_some, text_value, labels_value, quality_value, metadata_value, true_or, chat_value,
}
use buffdata.Models.Codec.Lookups.{get_field-without, get_field-without_other}
use buffdata.Models.Codec.Reread.{IsFaithful}
use buffdata.Models.Codec.Formats.{chat-again, raw-again, custom-again, dpo-again, alpaca-again}
use mathlib.Core.Path.{subst}
use buffdata.Models.Codec.Branches.{Rereads}

pub and_some-ok :
    {A B : Type 0} (o : Option A) (f : A → Option B) (b : B)
    → and_some o f ≡ some b
    → (a : A) × (o ≡ some a) × (f a ≡ some b)
and_some-ok none f b h = absurd (none-ne-some h)
and_some-ok (some a) f b h = (a, refl, h)

module _ (c : Codec) (faithful : IsFaithful c) where
  true_or-named : (o : Option Json) (other : String) → other ≢ "" → true_or c o other ≢ ""
  true_or-named none other h = h
  true_or-named (some j) other h = elim (Bool-cases (json_true j)) [
    | inl e ↦ rw e (faithful.named j e)
    | inr e ↦ rw e h
  ]

  id_value-named : (d : Fields) → id_value c d ≢ ""
  id_value-named d =
      true_or-named (get_field "id" d) _
        (true_or-named (get_field "_buffdata_id" d) c.fresh_id faithful.fresh)

  popped-other :
      (k : String) (d : Fields)
      → ("id" == k) ≡ false
      → ("_buffdata_id" == k) ≡ false
      → get_field k (id_popped d) ≡ get_field k d
  popped-other k d i b =
      if_cases (λ (fs : Fields). get_field k fs ≡ get_field k d) (has_true "id" d) (without "id" d)
        (without "_buffdata_id" (without "id" d)) (λ e. get_field-without_other k "id" d i)
        (λ e.
          get_field-without_other k "_buffdata_id" (without "id" d) b
          ∙ get_field-without_other k "id" d i)

  metadata_popped : (d : Fields) → get_field "_buffdata_metadata" (columns d) ≡ none
  metadata_popped d =
      popped-other "_buffdata_metadata"
        (without "_buffdata_quality" (without "_buffdata_metadata" d)) refl refl
      ∙ get_field-without_other "_buffdata_metadata" "_buffdata_quality"
          (without "_buffdata_metadata" d) refl
      ∙ get_field-without "_buffdata_metadata" d

  quality_popped : (d : Fields) → get_field "_buffdata_quality" (columns d) ≡ none
  quality_popped d =
      popped-other "_buffdata_quality"
        (without "_buffdata_quality" (without "_buffdata_metadata" d)) refl refl
      ∙ get_field-without "_buffdata_quality" (without "_buffdata_metadata" d)

  module _ (id : String) (l : Option Labels) (m : Fields) (q : Option QualityScore) (fs : Fields)
      (named : id ≢ "") (no_metadata : get_field "_buffdata_metadata" fs ≡ none)
      (no_quality : get_field "_buffdata_quality" fs ≡ none)
      (labels : labels_value c (labels_column fs) ≡ some l) where
    texts-Rereads :
        (f : DatasetFormat)
        → detected fs ≡ f
        → (x : Item) → with_texts f fs (bare f id l m q fs) ≡ some x
        → Rereads c x
    texts-Rereads DatasetFormat.chat d x h =
        let (ms, h1, k1) = and_some-ok (chat_value (list_of (get_field "messages" fs))) _ x h in
        subst (Rereads c) (some-inj k1) (
          chat-again c faithful id l m q fs ms (record {
            named = named;
            no_metadata = no_metadata;
            no_quality = no_quality;
            labels = labels;
          }))
    texts-Rereads DatasetFormat.dpo d x h =
        let (p, h1, k1) = and_some-ok (text_value (get_field "prompt" fs)) _ x h in
        let (ch, h2, k2) = and_some-ok (text_value (get_field "chosen" fs)) _ x k1 in
        let (r, h3, k3) = and_some-ok (text_value (get_field "rejected" fs)) _ x k2 in
        subst (Rereads c) (some-inj k3) (
          dpo-again c faithful id l m q fs p ch r d (record {
            named = named;
            no_metadata = no_metadata;
            no_quality = no_quality;
            labels = labels;
          }))
    texts-Rereads DatasetFormat.alpaca d x h =
        let (i, h1, k1) = and_some-ok (text_value (get_field "instruction" fs)) _ x h in
        let (n, h2, k2) = and_some-ok (text_value (get_field "input" fs)) _ x k1 in
        let (o, h3, k3) = and_some-ok (text_value (get_field "output" fs)) _ x k2 in
        subst (Rereads c) (some-inj k3) (
          alpaca-again c faithful id l m q fs i n o d (record {
            named = named;
            no_metadata = no_metadata;
            no_quality = no_quality;
            labels = labels;
          }))
    texts-Rereads DatasetFormat.raw d x h =
        let (t, h1, k1) = and_some-ok (text_value (get_field "text" fs)) _ x h in
        subst (Rereads c) (some-inj k1) (
          raw-again c faithful id l m q fs t d (record {
            named = named;
            no_metadata = no_metadata;
            no_quality = no_quality;
            labels = labels;
          }))
    texts-Rereads DatasetFormat.custom d x h = subst (Rereads c) (some-inj h) (
        custom-again c faithful id l m q fs d (record {
          named = named;
          no_metadata = no_metadata;
          no_quality = no_quality;
          labels = labels;
        }))

  -- Where the codec of values is faithful, a record that `from_dict` has read, of any format, is read again
  -- from what `to_dict` writes. It has the same id, format, labels, metadata, score and messages, and the
  -- same texts, with the empty text for one that was missing. No column is lost that is not its own.
  pub from_dict-Rereads : (d : Fields) (x : Item) → from_dict c d ≡ some x → Rereads c x
  unfolding from_dict
  from_dict-Rereads d x h =
      let (m, h1, k1) = and_some-ok (metadata_value (get_field "_buffdata_metadata" d)) _ x h in
      let (q, h2, k2) = and_some-ok (quality_value c (get_field "_buffdata_quality" d)) _ x k1 in
      let (l, h3, k3) = and_some-ok (labels_value c (labels_column (columns d))) _ x k2 in
      texts-Rereads (id_value c d) l m q (columns d) (id_value-named d) (metadata_popped d)
        (quality_popped d) h3 (detected (columns d)) refl x k3
