-- ===== src/Engine/Pipeline/Strict.antt =====
-- The strict accuracy contract on labelled records: the stages after the first leave them alone.
use buffdata.Prelude.{
  ◌≡◌, List, All, true, Bool-cases, ◌∷◌, ap, ◌∙◌, inl, [], inr, refl, append_nil,
}
use buffdata.Engine.Pipeline.{
  run, State, Stage, run_stages, Config, validate, run_stage, Services, strict_labeled,
  run_validate, run_pii, run_profile, run_dedup, kept_items, done, invalid_reason, run_score_refine,
  start, run_filter, run_classify, rejected_items, pii, work, profile, dedup, score_refine, filter,
  classify,
}
use buffdata.Models.Item.{PyText, Item}

-- The stages after the validation.
abbrev pub Late : Stage → Type 0
Late validate = ⊥
Late _ = Unit

-- The records of `t` are those of `s`.
abbrev pub SameRecords : State → State → Type 0
SameRecords s t = (t.accepted ≡ s.accepted) × (t.rejected ≡ s.rejected)

module _ (py : PyText) (c : Config) (sv : Services) where
  Late-work :
      (g : Stage) (s : State)
      → Late g
      → strict_labeled c s.accepted ≡ true
      → SameRecords s (work py c sv g s)
  unfolding run_pii run_profile run_dedup run_score_refine run_filter run_classify
  Late-work validate s h k = absurd h
  Late-work pii s h k = rw k (refl, refl)
  Late-work profile s h k = (refl, refl)
  Late-work dedup s h k = rw k (refl, append_nil s.rejected)
  Late-work score_refine s h k = rw k (refl, refl)
  Late-work filter s h k = rw k (refl, refl)
  Late-work classify s h k = rw k (refl, refl)

  Late-run_stage :
      (g : Stage) (s : State)
      → Late g
      → strict_labeled c s.accepted ≡ true
      → SameRecords s (run_stage py c sv g s)
  unfolding run_stage
  Late-run_stage g s h k = elim (Bool-cases (done g s)) [
    | inl old ↦ rw old (refl, refl)
    | inr new ↦ rw new (Late-work g s h k)
  ]

  Late-run_stages :
      (gs : List Stage) (s : State)
      → All Late gs
      → strict_labeled c s.accepted ≡ true
      → SameRecords s (run_stages py c sv gs s)
  unfolding run_stages
  Late-run_stages [] s h k = (refl, refl)
  Late-run_stages (g ∷ gs) s h k =
      let one = Late-run_stage g s h.0 k in
      let rest = Late-run_stages gs (run_stage py c sv g s) h.1 (ap (strict_labeled c) one.0 ∙ k) in
      (rest.0 ∙ one.0, rest.1 ∙ one.1)

-- Under the strict contract, where the records that pass the validation are at least one and all
-- labelled, a run from new items accepts just these, unchanged and in order, and rejects just the others.
pub strict-run :
    (py : PyText) (c : Config) (sv : Services) (items : List Item)
    → strict_labeled c (kept_items (invalid_reason py sv) items) ≡ true
    → ((run py c sv (start items)).accepted ≡ kept_items (invalid_reason py sv) items)
      × ((run py c sv (start items)).rejected
          ≡ rejected_items validate (invalid_reason py sv) items)
unfolding run run_stages run_stage run_validate
strict-run py c sv items h =
    Late-run_stages py c sv (pii ∷ profile ∷ dedup ∷ score_refine ∷ filter ∷ classify ∷ [])
      (run_stage py c sv validate (start items)) (tt, (tt, (tt, (tt, (tt, (tt, tt)))))) h
