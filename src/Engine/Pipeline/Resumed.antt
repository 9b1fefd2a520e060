-- ===== src/Engine/Pipeline/Resumed.antt =====
-- A run that is stopped after some stages and goes on from its checkpoint.
use buffdata.Prelude.{
  ℕ, String, Option, List, none, some, true, refl, [], ◌∷◌, ◌≡◌, ◌≢◌, ◌==◌, ◌∙◌, map, any, take,
  drop, take-drop, All, ap, sym, arith, eq_iff, some-inj, string_eq,
}
use buffdata.Prelude.Exec.{Result, ok, err}
use buffdata.Prelude.Json.{Fields}
use buffdata.Models.Item.{Item, PyText, DatasetFormat, get_field}
use buffdata.Models.Codec.{
  Codec, from_dict, to_dict, with_texts, id_value, chat_value, metadata_value, list_of,
  quality_value, text_value, labels_value, labels_column, columns, detected,
}
use buffdata.Models.Codec.Reread.{IsFaithful}
use buffdata.Engine.Pipeline.{
  State, Config, Services, stage_beq, start, stages, run, run_stages, done,
}
use buffdata.Engine.Pipeline.Conservation.{count, total, KeepsIds, total-run, total-run_stages}
use buffdata.Engine.Pipeline.Resume.{done-run_stages, run_stages-done, run_stages-append}
use buffdata.Engine.Pipeline.Checkpoint.{
  Profiles, RunError, saved, items_read, loaded, valid, run_file, completed, begun, profile_read,
}
use mathlib.Core.Path.{subst}
use buffdata.Models.Codec.Roundtrip.{and_some-ok}
use buffdata.Models.Codec.Again.{id_again}

id-with_texts :
    (f : DatasetFormat) (fs : Fields) (x y : Item) → with_texts f fs x ≡ some y → y.id ≡ x.id
id-with_texts DatasetFormat.chat fs x y h =
    let (ms, h1, k1) = and_some-ok (chat_value (list_of (get_field "messages" fs))) _ y h in
    sym (ap (λ (z : Item). z.id) (some-inj k1))
id-with_texts DatasetFormat.dpo fs x y h =
    let (p, h1, k1) = and_some-ok (text_value (get_field "prompt" fs)) _ y h in
    let (ch, h2, k2) = and_some-ok (text_value (get_field "chosen" fs)) _ y k1 in
    let (r, h3, k3) = and_some-ok (text_value (get_field "rejected" fs)) _ y k2 in
    sym (ap (λ (z : Item). z.id) (some-inj k3))
id-with_texts DatasetFormat.alpaca fs x y h =
    let (i, h1, k1) = and_some-ok (text_value (get_field "instruction" fs)) _ y h in
    let (n, h2, k2) = and_some-ok (text_value (get_field "input" fs)) _ y k1 in
    let (o, h3, k3) = and_some-ok (text_value (get_field "output" fs)) _ y k2 in
    sym (ap (λ (z : Item). z.id) (some-inj k3))
id-with_texts DatasetFormat.raw fs x y h =
    let (t, h1, k1) = and_some-ok (text_value (get_field "text" fs)) _ y h in
    sym (ap (λ (z : Item). z.id) (some-inj k1))
id-with_texts DatasetFormat.custom fs x y h = sym (ap (λ (z : Item). z.id) (some-inj h))

id-from_dict : (ck : Codec) (d : Fields) (y : Item) → from_dict ck d ≡ some y → y.id ≡ id_value ck d
unfolding from_dict
id-from_dict ck d y h =
    let (m, h1, k1) = and_some-ok (metadata_value (get_field "_buffdata_metadata" d)) _ y h in
    let (q, h2, k2) = and_some-ok (quality_value ck (get_field "_buffdata_quality" d)) _ y k1 in
    let (l, h3, k3) = and_some-ok (labels_value ck (labels_column (columns d))) _ y k2 in
    id-with_texts (detected (columns d)) (columns d) _ y k3

-- Records that have an id are read again with it.
count-items_read :
    (ck : Codec)
    → IsFaithful ck
    → (i : String) (xs ys : List Item) → count "" xs ≡ 0
    → items_read ck (map (to_dict ck) xs) ≡ some ys
    → count i ys ≡ count i xs
count-items_read ck faithful i [] ys named h = ap (count i) (sym (some-inj h))
count-items_read ck faithful i (x ∷ xs) ys named h =
    let (y, h1, k1) = and_some-ok (from_dict ck (to_dict ck x)) _ ys h in
    let (zs, h2, k2) = and_some-ok (items_read ck (map (to_dict ck) xs)) _ ys k1 in
    let has_id : x.id ≢ "" = λ e. ground (arith, named, (eq_iff x.id "").1 e) in
    let same : y.id ≡ x.id = id-from_dict ck (to_dict ck x) y h1 ∙ id_again ck faithful x has_id in
    let rest = count-items_read ck faithful i xs zs (ground (arith, named)) h2 in
    ap (count i) (sym (some-inj k2)) ∙ rw same (omega (arith, rest))

loaded-saved :
    (ck : Codec) (pf : Profiles) (f : String) (s t : State)
    → IsFaithful ck
    → total "" s ≡ 0
    → loaded ck pf (saved ck pf f s) ≡ some t
    → ((i : String) → total i t ≡ total i s) × (t.completed ≡ s.completed)
loaded-saved ck pf f s t faithful named h =
    let (xs, h1, k1) = and_some-ok (items_read ck (map (to_dict ck) s.accepted)) _ t h in
    let (ys, h2, k2) = and_some-ok (items_read ck (map (to_dict ck) s.rejected)) _ t k1 in
    let (p, h3, k3) = and_some-ok (profile_read pf (saved ck pf f s).profile) _ t k2 in
    (
      (λ i.
          ap (total i) (sym (some-inj k3))
          ∙ omega (
            arith,
            count-items_read ck faithful i s.accepted xs (omega (arith, named)) h1,
            count-items_read ck faithful i s.rejected ys (omega (arith, named)) h2,
          )),
      ap (λ (u : State). u.completed) (sym (some-inj k3)),
    )

run_ok : {a b : State} → Path (Result RunError State) (ok a) (ok b) → a ≡ b
run_ok h = cc

run_err : {e : RunError} {a : State} → Path (Result RunError State) (err e) (ok a) → ⊥
run_err h = cc

valid-completed :
    (py : PyText) (c : Config) (sv : Services) (o : Option State) (t : State)
    → completed py c sv (valid o) ≡ ok t
    → (u : State) × (o ≡ some u) × (run py c sv u ≡ t)
valid-completed py c sv none t h = absurd (run_err h)
valid-completed py c sv (some u) t h = (u, refl, run_ok h)

module _ (py : PyText) (c : Config) (sv : Services) where
  total-start : (i : String) (items : List Item) → total i (start items) ≡ count i items
  total-start i items = omega arith

  -- Where the stages of a list are done, a run does those that are left.
  run-done :
      (k : ℕ) (u : State)
      → All (λ g. done g u ≡ true) (take k stages)
      → run py c sv u ≡ run_stages py c sv (drop k stages) u
  unfolding run
  run-done k u h =
      sym (ap (λ gs. run_stages py c sv gs u) (take-drop k stages))
      ∙ run_stages-append py c sv (take k stages) (drop k stages) u
      ∙ ap (run_stages py c sv (drop k stages)) (run_stages-done py c sv (take k stages) u h)

  -- Where the services keep ids, the codec of values is faithful and every record has an id, a run is stopped
  -- after any number of stages and its checkpoint is written. A second run that goes on from what it reads
  -- there, and is not refused, does just the stages that are left; at its end as many records of each id
  -- are accepted or rejected as there were in the input.
  pub run_file-saved :
      KeepsIds sv
      → (ck : Codec) (pf : Profiles) → IsFaithful ck
      → (fingerprint : String) (k : ℕ) (items : List Item) (t : State) → count "" items ≡ 0
      → run_file py c sv ck pf fingerprint items
          (some (saved ck pf fingerprint (run_stages py c sv (take k stages) (start items))))
        ≡ ok t
      → (u : State) × (loaded ck pf
            (saved ck pf fingerprint (run_stages py c sv (take k stages) (start items)))
          ≡ some u)
        × (t ≡ run_stages py c sv (drop k stages) u)
        × ((i : String) → total i t ≡ count i items)
  run_file-saved keeps ck pf faithful fingerprint k items t named h =
      let s = run_stages py c sv (take k stages) (start items) in
      let own : (fingerprint == fingerprint) ≡ true = (eq_iff fingerprint fingerprint).1 refl in
      let (u, read, ran) =
        valid-completed py c sv (loaded ck pf (saved ck pf fingerprint s)) t
          (rw (begun, own) at h) in
      let kept : (i : String) → total i s ≡ count i items =
        λ i. total-run_stages py c sv keeps i (take k stages) (start items) ∙ total-start i items in
      let (same, left) = loaded-saved ck pf fingerprint s u faithful (kept "" ∙ named) read in
      (
        u,
        read,
        sym ran
            ∙ run-done k u (
                subst (λ gs. All (λ g. any (stage_beq g) gs ≡ true) (take k stages)) (sym left)
                  (done-run_stages py c sv (take k stages) (start items))),
        λ i. ap (total i) (sym ran) ∙ total-run py c sv keeps i u ∙ same i ∙ kept i,
      )
