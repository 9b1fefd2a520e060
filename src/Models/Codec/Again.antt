-- ===== src/Models/Codec/Again.antt =====
-- The parts of a record that do not depend on its format, once it is written and read again.
use buffdata.Prelude.{
  [], none, some, true, false, refl, String, Option, List, ◌∷◌, ◌≡◌, ◌≢◌, ◌==◌, string_eq,
  Bool-cases, inl, inr, eq_iff, ◌∙◌, sym, ap, contains, All,
}
use buffdata.Prelude.Json.{Json, Fields, end, field}
use buffdata.Models.Item.{Item, QualityScore, Labels, get_field, set_field}
use buffdata.Models.Codec.{
  Codec, from_dict, to_dict, columns, labels_column, detected, with_texts, bare, id_value, and_some,
  labels_written, metadata_written, quality_written, labels_value, quality_value, metadata_value,
  present_or,
}
use buffdata.Models.Codec.Lookups.{get_field-set_other, get_field-maybe_other, get_field-maybe_set}
use buffdata.Models.Codec.Reread.{
  IsFaithful, is_other, columns-other, layers, texts_layer, texts_other, reread_id, reread_metadata,
  reread_quality, own_keys,
}
use mathlib.Core.Bool.{false≢true}

and_some-some :
    {A B : Type 0} (o : Option A) (a : A) (f : A → Option B) → o ≡ some a → and_some o f ≡ f a
and_some-some o a f e = rw e refl

not_contained :
    (k : String) (ks : List String) → contains k ks ≡ false → All (λ j. (j == k) ≡ false) ks
not_contained k [] h = tt
not_contained k (j ∷ ks) h = elim (Bool-cases (j == k)) [
  | inl e ↦ absurd (false≢true (sym (rw e at h)))
  | inr e ↦ (e, not_contained k ks (rw e at h))
]

all_apart : (k : String) → is_other k ≡ true → All (λ j. (j == k) ≡ false) own_keys
all_apart k h = not_contained k own_keys (elim (Bool-cases (contains k own_keys)) [
  | inl e ↦ absurd (false≢true (rw e at h))
  | inr e ↦ e
])

module _ (c : Codec) (faithful : IsFaithful c) (x : Item) where
  -- A column of the record that is read again.
  pub seen :
      (k : String)
      → ("id" == k) ≡ false
      → ("_buffdata_id" == k) ≡ false
      → ("_buffdata_metadata" == k) ≡ false
      → ("_buffdata_quality" == k) ≡ false
      → ("labels" == k) ≡ false
      → get_field k (columns (to_dict c x)) ≡ get_field k (texts_layer c x)
  seen k i b m q l =
      columns-other k (to_dict c x) i b m q
      ∙ layers c x k m q
      ∙ get_field-maybe_other k "labels" (labels_written c x.labels) (texts_layer c x) l

  pub kept :
      (k : String)
      → is_other k ≡ true
      → get_field k (columns (to_dict c x)) ≡ get_field k x.raw_data
  kept k h =
      let (i, (b, (m, (q, (l, (ms, (ins, (inp, (o, (p, (ch, (r, (t, u))))))))))))) =
        all_apart k h in
      seen k i b m q l
      ∙ texts_other c x x.format k (set_field "id" (Json.str x.id) x.raw_data) ms ins inp o p ch r t
      ∙ get_field-set_other k "id" (Json.str x.id) x.raw_data i

  pub id_again : x.id ≢ "" → id_value c (to_dict c x) ≡ x.id
  id_again named = elim (Bool-cases (x.id == "")) [
    | inl e ↦ absurd (named ((eq_iff x.id "").0 e))
    | inr e ↦ rw (reread_id c x, e) (faithful.texts x.id)
  ]

  metadata_written-again :
      (fs : Fields) → metadata_value (present_or (metadata_written fs) none) ≡ some fs
  metadata_written-again end = refl
  metadata_written-again (field k v fs) = refl

  metadata_again :
      get_field "_buffdata_metadata" x.raw_data ≡ none
      → metadata_value (get_field "_buffdata_metadata" (to_dict c x)) ≡ some x.metadata
  metadata_again none_there =
      rw (reread_metadata c x, none_there) (metadata_written-again x.metadata)

  quality_written-again :
      (q : Option QualityScore) → quality_value c (present_or (quality_written c q) none) ≡ some q
  quality_written-again none = refl
  quality_written-again (some q) = faithful.scores q

  quality_again :
      get_field "_buffdata_quality" x.raw_data ≡ none
      → quality_value c (get_field "_buffdata_quality" (to_dict c x)) ≡ some x.quality_score
  quality_again none_there =
      rw (reread_quality c x, none_there) (quality_written-again x.quality_score)

  labels_there :
      (l : Option Labels)
      → x.labels ≡ l
      → get_field "labels" (columns (to_dict c x))
        ≡ present_or (labels_written c l) (get_field "labels" x.raw_data)
  labels_there l e =
      columns-other "labels" (to_dict c x) refl refl refl refl
      ∙ layers c x "labels" refl refl
      ∙ get_field-maybe_set "labels" (labels_written c x.labels) (texts_layer c x)
      ∙ ap
          (λ (y : Option Labels).
            present_or (labels_written c y) (get_field "labels" (texts_layer c x)))
          e
      ∙ ap (present_or (labels_written c l)) (
          texts_other c x x.format "labels" (set_field "id" (Json.str x.id) x.raw_data) refl refl
            refl refl refl refl refl refl
          ∙ get_field-set_other "labels" "id" (Json.str x.id) x.raw_data refl)

  labels_by :
      (l : Option Labels)
      → x.labels ≡ l
      → labels_value c (labels_column x.raw_data) ≡ some l
      → labels_value c (labels_column (columns (to_dict c x))) ≡ some l
  labels_by (some l) e h = rw (labels_there (some l) e) (faithful.labels l)
  labels_by none e h =
      rw (labels_there none e, kept "label" refl, kept "category" refl, kept "target" refl) h

  -- What reading the written record comes to, where the branch of `from_dict` is that of its format.
  pub again :
      x.id ≢ ""
      → get_field "_buffdata_metadata" x.raw_data ≡ none
      → get_field "_buffdata_quality" x.raw_data ≡ none
      → labels_value c (labels_column x.raw_data) ≡ some x.labels
      → detected (columns (to_dict c x)) ≡ x.format
      → from_dict c (to_dict c x)
        ≡ with_texts x.format
            (columns (to_dict c x))
            (bare x.format x.id x.labels x.metadata x.quality_score (columns (to_dict c x)))
  unfolding from_dict
  again named m q l d =
      and_some-some (metadata_value (get_field "_buffdata_metadata" (to_dict c x))) x.metadata _
        (metadata_again m)
      ∙ and_some-some (quality_value c (get_field "_buffdata_quality" (to_dict c x)))
          x.quality_score _ (quality_again q)
      ∙ and_some-some (labels_value c (labels_column (columns (to_dict c x)))) x.labels _
          (labels_by x.labels refl l)
      ∙ ap
          (λ f. with_texts f (columns (to_dict c x)) (
            bare f (id_value c (to_dict c x)) x.labels x.metadata x.quality_score
              (columns (to_dict c x))))
          d
      ∙ ap
          (λ i.
            with_texts x.format (columns (to_dict c x))
              (bare x.format i x.labels x.metadata x.quality_score (columns (to_dict c x))))
          (id_again named)
