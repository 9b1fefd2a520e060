-- ===== src/Models/Codec/Lookups.antt =====
-- What is found in a dictionary under a key once another key is set or popped.
use buffdata.Prelude.{
  none, some, false, refl, String, Option, ◌≡◌, ◌==◌, if◌then◌else◌, string_eq, Bool-cases, inl,
  inr, eq_iff, arith, ◌∙◌,
}
use buffdata.Prelude.Json.{Json, Fields, end, field}
use buffdata.Models.Item.{get_field, set_field, without}
use buffdata.Models.Codec.{maybe_set, present_or}

if_cases_same :
    (i k : String) (v : Json) (a b : Option Json)
    → a ≡ b
    → (if i == k then some v else a) ≡ (if i == k then some v else b)
if_cases_same i k v a b e = rw e refl

pub get_field-set_field :
    (k : String) (v : Json) (fs : Fields) → get_field k (set_field k v fs) ≡ some v
get_field-set_field k v end = ground (arith, eq_iff k k)
get_field-set_field k v (field j w fs) = elim (Bool-cases (j == k)) [
  | inl e ↦ rw e (ground (arith, eq_iff k k))
  | inr e ↦ rw (e, e) (get_field-set_field k v fs)
]

pub get_field-set_other :
    (k j : String) (v : Json) (fs : Fields)
    → (j == k) ≡ false
    → get_field k (set_field j v fs) ≡ get_field k fs
get_field-set_other k j v end n = rw n refl
get_field-set_other k j v (field i w fs) n = elim (Bool-cases (i == j)) [
  | inl e ↦ rw e (ground (arith, n, e, eq_iff i j, eq_iff i k, eq_iff j k))
  | inr e ↦ rw e (
      if_cases_same i k w (get_field k (set_field j v fs)) (get_field k fs)
        (get_field-set_other k j v fs n))
]

pub get_field-maybe_other :
    (k j : String) (v : Option Json) (fs : Fields)
    → (j == k) ≡ false
    → get_field k (maybe_set j v fs) ≡ get_field k fs
get_field-maybe_other k j none fs n = refl
get_field-maybe_other k j (some v) fs n = get_field-set_other k j v fs n

pub get_field-maybe_set :
    (k : String) (v : Option Json) (fs : Fields)
    → get_field k (maybe_set k v fs) ≡ present_or v (get_field k fs)
get_field-maybe_set k none fs = refl
get_field-maybe_set k (some v) fs = get_field-set_field k v fs

pub get_field-without : (k : String) (fs : Fields) → get_field k (without k fs) ≡ none
get_field-without k end = refl
get_field-without k (field j v fs) = elim (Bool-cases (j == k)) [
  | inl e ↦ rw e (get_field-without k fs)
  | inr e ↦ rw (e, e) (get_field-without k fs)
]

pub get_field-without_other :
    (k j : String) (fs : Fields) → (j == k) ≡ false → get_field k (without j fs) ≡ get_field k fs
get_field-without_other k j end n = refl
get_field-without_other k j (field i v fs) n = elim (Bool-cases (i == j)) [
  | inl e ↦
      rw e (
        get_field-without_other k j fs n ∙ ground (arith, n, e, eq_iff i j, eq_iff i k, eq_iff j k))
  | inr e ↦ rw e (
      if_cases_same i k v (get_field k (without j fs)) (get_field k fs)
        (get_field-without_other k j fs n))
]
