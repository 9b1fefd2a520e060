-- ===== src/Models/Codec/Examples.antt =====
-- Tests of a record with a column of its own.
use buffdata.Prelude.{
  [], none, some, true, zero, suc, refl, ℕ, String, Option, List, ◌∷◌, ◌≡◌, ◌≢◌, string_eq, ap,
}
use buffdata.Prelude.Json.{Json, Items, Fields, nil, cons, end, field}
use buffdata.Models.Item.{Item, Labels, QualityScore, json_true, scalar, many, raw, get_field}
use buffdata.Models.Codec.{Codec, from_dict, to_dict, labels_value, quality_value, bare, some_of}
use buffdata.Models.Codec.Reread.{IsFaithful}
use buffdata.Models.Codec.Roundtrip.{from_dict-Rereads}
use mathlib.Core.Bool.{false≢true}
use buffdata.Models.Codec.Branches.{Rereads}

abbrev text_list : List String → Items
text_list [] = nil
text_list (s ∷ ss) = cons (Json.str s) (text_list ss)

abbrev texts_of : Items → Option (List String)
texts_of nil = some []
texts_of (cons (Json.str s) xs) = elim (texts_of xs) [ none ↦ none | some ss ↦ some (s ∷ ss) ]
texts_of (cons j xs) = none

abbrev many_of : Option (List String) → Option Labels
many_of none = none
many_of (some ss) = some (many ss)

abbrev read_labels : Json → Option Labels
read_labels (Json.str s) = some (scalar s)
read_labels (Json.arr xs) = many_of (texts_of xs)
read_labels j = none

abbrev write_labels : Labels → Json
write_labels (scalar s) = Json.str s
write_labels (many ss) = Json.arr (text_list ss)

-- A score is written with as many nulls as its units.
abbrev nulls : ℕ → Items
nulls zero = nil
nulls (suc n) = cons Json.null (nulls n)

abbrev count : Items → ℕ
count nil = 0
count (cons j js) = suc (count js)

abbrev read_score : Json → Option QualityScore
read_score (Json.obj (field k (Json.bool safe) (field k' (Json.arr xs) fs))) =
    some (record { overall_score = count xs; is_safe = safe })
read_score j = none

abbrev write_score : QualityScore → Json
write_score q = Json.obj (
    field "is_safe" (Json.bool q.is_safe)
      (field "overall_score" (Json.arr (nulls q.overall_score)) end))

abbrev text_of : Json → String
text_of (Json.str s) = s
text_of j = "1"

abbrev pub codec : Codec
codec = record {
  str = text_of;
  fresh_id = "new";
  labels_of = read_labels;
  labels_json = write_labels;
  score_of = read_score;
  score_json = write_score;
}

texts_of-text_list : (ss : List String) → texts_of (text_list ss) ≡ some ss
texts_of-text_list [] = refl
texts_of-text_list (s ∷ ss) = rw (texts_of-text_list ss) refl

labels_read : (l : Labels) → labels_value codec (some (write_labels l)) ≡ some (some l)
labels_read (scalar s) = refl
labels_read (many ss) = ap (λ o. some_of (many_of o)) (texts_of-text_list ss)

count-nulls : (n : ℕ) → count (nulls n) ≡ n
count-nulls zero = refl
count-nulls (suc n) = ap suc (count-nulls n)

scores_read : (q : QualityScore) → quality_value codec (some (write_score q)) ≡ some (some q)
scores_read q = ap (λ n. some (some (record q { overall_score = n }))) (count-nulls q.overall_score)

one-ne : ◌≡◌ {A = String} "1" "" → ⊥
one-ne h = cc

new-ne : ◌≡◌ {A = String} "new" "" → ⊥
new-ne h = cc

text_named : (j : Json) → json_true j ≡ true → text_of j ≢ ""
text_named (Json.str s) h e = absurd (false≢true (rw e at h))
text_named Json.null h e = one-ne e
text_named (Json.bool b) h e = one-ne e
text_named (Json.num n) h e = one-ne e
text_named (Json.arr xs) h e = one-ne e
text_named (Json.obj fs) h e = one-ne e

pub codec-IsFaithful : IsFaithful codec
codec-IsFaithful = record {
  labels = labels_read;
  scores = scores_read;
  texts = λ s. refl;
  named = text_named;
  fresh = new-ne;
}

-- A text with a category, a score and a column that no format knows.
abbrev row : Fields
row = field "_buffdata_id" (Json.str "7") (
    field "text" (Json.str "hello") (
      field "category" (Json.str "greeting") (
        field "source" (Json.str "web") (
          field "_buffdata_quality" (write_score (record { overall_score = 3; is_safe = true }))
            end))))

abbrev item : Item
item =
    record (bare raw "7" (some (scalar "greeting")) end
      (some (record { overall_score = 3; is_safe = true }))
      (field "text" (Json.str "hello")
        (field "category" (Json.str "greeting") (field "source" (Json.str "web") end)))) {
          text = some "hello";
        }

is_read : from_dict codec row ≡ some item
unfolding from_dict
is_read = refl

column_kept : get_field "source" (to_dict codec item) ≡ some (Json.str "web")
unfolding to_dict
column_kept = refl

from_dict-Rereads_example : Rereads codec item
from_dict-Rereads_example = from_dict-Rereads codec codec-IsFaithful row item is_read
