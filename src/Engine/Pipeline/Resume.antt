-- ===== src/Engine/Pipeline/Resume.antt =====
-- The stages that are completed, and those that are left.
use buffdata.Prelude.{
  List, any, ◌++◌, ◌≡◌, true, ◌||◌, ◌∷◌, ap, Bool-cases, inl, refl, inr, [], ◌∙◌, any-append, All,
  arith,
}
use buffdata.Models.Item.{PyText}
use buffdata.Engine.Pipeline.{
  Stage, Config, stage_beq, Services, run_stage, run_validate, validate, run_pii, State, pii, done,
  run_profile, run_dedup, profile, run_score_refine, dedup, work, run_filter, score_refine,
  run_classify, filter, classify, QualityMode, quality_mode_of, run_stages, filtered, llm, sampled,
  quality_off,
}

stage_beq_refl : (g : Stage) → stage_beq g g ≡ true
stage_beq_refl validate = refl
stage_beq_refl pii = refl
stage_beq_refl profile = refl
stage_beq_refl dedup = refl
stage_beq_refl score_refine = refl
stage_beq_refl filter = refl
stage_beq_refl classify = refl

last-or :
    (g : Stage) (xs : List Stage) → (any (stage_beq g) xs || any (stage_beq g) (g ∷ [])) ≡ true
last-or g xs = elim (Bool-cases (any (stage_beq g) xs)) [
  | inl e ↦ rw e refl
  | inr e ↦ rw (e, stage_beq_refl g) refl
]

first-or :
    (f g : Stage) (xs : List Stage)
    → any (stage_beq f) xs ≡ true
    → (any (stage_beq f) xs || any (stage_beq f) (g ∷ [])) ≡ true
first-or f g xs h = rw h refl

completed-filtered :
    (c : Config) (m : QualityMode) (s : State) → (filtered c m s).completed ≡ s.completed
completed-filtered c llm s = refl
completed-filtered c sampled s = refl
completed-filtered c quality_off s = refl

module _ (py : PyText) (c : Config) (sv : Services) where
  completed-work : (g : Stage) (s : State) → (work py c sv g s).completed ≡ s.completed
  unfolding run_validate run_pii run_profile run_dedup run_score_refine run_filter run_classify
  completed-work validate s = refl
  completed-work pii s = refl
  completed-work profile s = refl
  completed-work dedup s = refl
  completed-work score_refine s = refl
  completed-work filter s = completed-filtered c (quality_mode_of c s.accepted) s
  completed-work classify s = ground arith

  done-run_stage : (g : Stage) (s : State) → done g (run_stage py c sv g s) ≡ true
  unfolding run_stage
  done-run_stage g s = elim (Bool-cases (done g s)) [
    | inl old ↦ rw old old
    | inr new ↦ rw new (
        any-append (stage_beq g) (work py c sv g s).completed (g ∷ [])
        ∙ last-or g (work py c sv g s).completed)
  ]

  stays-run_stage :
      (f g : Stage) (s : State) → done f s ≡ true → done f (run_stage py c sv g s) ≡ true
  unfolding run_stage
  stays-run_stage f g s h = elim (Bool-cases (done g s)) [
    | inl old ↦ rw old h
    | inr new ↦ rw new (
        any-append (stage_beq f) (work py c sv g s).completed (g ∷ [])
        ∙ first-or f g (work py c sv g s).completed
            (ap (any (stage_beq f)) (completed-work g s) ∙ h))
  ]

  stays-run_stages :
      (f : Stage) (gs : List Stage) (s : State)
      → done f s ≡ true
      → done f (run_stages py c sv gs s) ≡ true
  unfolding run_stages
  stays-run_stages f [] s h = h
  stays-run_stages f (g ∷ gs) s h =
      stays-run_stages f gs (run_stage py c sv g s) (stays-run_stage f g s h)

  pub done-run_stages :
      (gs : List Stage) (s : State) → All (λ g. done g (run_stages py c sv gs s) ≡ true) gs
  unfolding run_stages
  done-run_stages [] s = tt
  done-run_stages (g ∷ gs) s = (
    stays-run_stages g gs (run_stage py c sv g s) (done-run_stage g s),
    done-run_stages gs (run_stage py c sv g s),
  )

  pub run_stages-done :
      (gs : List Stage) (s : State) → All (λ g. done g s ≡ true) gs → run_stages py c sv gs s ≡ s
  unfolding run_stages run_stage
  run_stages-done [] s h = refl
  run_stages-done (g ∷ gs) s h = rw (h.0) (run_stages-done gs s h.1)

  pub run_stages-append :
      (fs gs : List Stage) (s : State)
      → run_stages py c sv (fs ++ gs) s ≡ run_stages py c sv gs (run_stages py c sv fs s)
  unfolding run_stages
  run_stages-append [] gs s = refl
  run_stages-append (f ∷ fs) gs s = run_stages-append fs gs (run_stage py c sv f s)
