-- ===== src/Engine/Pipeline/Conservation.antt =====
-- No record is lost or made up: each stays in one of the two lists, under its id.
use buffdata.Prelude.{
  ℕ, String, List, ◌++◌, ◌∷◌, ◌+◌, Bool, ◌≡◌, Option, select, if◌then◌else◌, map, arith, ◌==◌, [],
  string_eq, refl, false, ◌∙◌, Bool-cases, Option-cases, inl, inr,
}
use buffdata.Models.Item.{PyText, Item}
use buffdata.Engine.Pipeline.{
  State, Stage, Services, Config, Schema, scrubbed, run_validate, sift, deduplicated, scored_items,
  kept_items, all_labeled, rejected_items, put_back, run_pii, quality_mode_of, run_profile,
  run_dedup, run_score_refine, run_filter, run_classify, work, invalid_reason, reject, dedup_reason,
  validate, pii, profile, dedup, score_refine, filter, classify, pii_mode, run_stages, run,
  run_stage, QualityMode, classified, PiiMode, filtered, stages, refinable, schema_of, done,
  pii_off, failure_reason, filter_reason, quality_off, llm, sampled,
}

-- How many records of a list have an id.
abbrev pub count : String → List Item → ℕ
count i [] = 0
count i (x ∷ xs) = (if x.id == i then 1 else 0) + count i xs

-- How many records of a state have an id.
abbrev pub total : String → State → ℕ
total i s = count i s.accepted + count i s.rejected

-- The same ids at the same places.
abbrev pub SameIds : List Item → List Item → Type 0
SameIds [] [] = Unit
SameIds (x ∷ xs) (y ∷ ys) = (x.id ≡ y.id) × SameIds xs ys
SameIds _ _ = ⊥

-- What the pipeline relies on in its services: records come back under their ids, as often.
pub record KeepsIds (sv : Services) : Type 0 where
  pub scrub_batch :
      (b : Bool) (xs : List Item) (i : String) → count i (sv.scrub_batch b xs) ≡ count i xs
  pub exact :
      (xs : List Item) (i : String)
      → count i (sv.deduplicate_exact xs).0 + count i (sv.deduplicate_exact xs).1 ≡ count i xs
  pub minhash :
      (xs : List Item) (i : String)
      → count i (sv.deduplicate_minhash xs).0 + count i (sv.deduplicate_minhash xs).1 ≡ count i xs
  pub semantic :
      (xs : List Item) (i : String)
      → count i (sv.deduplicate_semantic_local xs).0 + count i (sv.deduplicate_semantic_local xs).1
        ≡ count i xs
  pub audit : (xs : List Item) → SameIds (sv.audit xs) xs
  pub refine : (xs : List Item) → SameIds (sv.refine xs) xs
  pub classify_batch :
      (g : Schema) (xs : List Item) (i : String) → count i (sv.classify_batch g xs) ≡ count i xs

pub count-append : (i : String) (xs ys : List Item) → count i (xs ++ ys) ≡ count i xs + count i ys
count-append i [] ys = omega arith
count-append i (x ∷ xs) ys = omega (arith, count-append i xs ys)

count-map :
    (f : Item → Item) (i : String) (xs : List Item)
    → ((x : Item) → (f x).id ≡ x.id)
    → count i (map f xs) ≡ count i xs
count-map f i [] same = refl
count-map f i (x ∷ xs) same = rw (same x) (omega (arith, count-map f i xs same))

count-sift :
    (g : Stage) (reason : Item → Option String) (i : String) (xs : List Item)
    → count i (kept_items reason xs) + count i (rejected_items g reason xs) ≡ count i xs
count-sift g reason i [] = omega arith
count-sift g reason i (x ∷ xs) = elim (Option-cases (reason x)) [
  | inl e ↦ rw e (omega (arith, count-sift g reason i xs))
  | inr (r, e) ↦ rw e (omega (arith, count-sift g reason i xs))
]

total-sift :
    (g : Stage) (reason : Item → Option String) (i : String) (s : State)
    → total i (sift g reason s) ≡ total i s
total-sift g reason i s = omega (
  arith,
  count-sift g reason i s.accepted,
  count-append i s.rejected (rejected_items g reason s.accepted),
)

count-SameIds : (i : String) (xs ys : List Item) → SameIds xs ys → count i xs ≡ count i ys
count-SameIds i [] [] h = refl
count-SameIds i [] (y ∷ ys) h = absurd h
count-SameIds i (x ∷ xs) [] h = absurd h
count-SameIds i (x ∷ xs) (y ∷ ys) h = rw (h.0) (omega (arith, count-SameIds i xs ys h.1))

count-put_back :
    (p : Item → Bool) (i : String) (ys xs : List Item)
    → SameIds ys (select p xs)
    → count i (put_back p ys xs) ≡ count i xs
count-put_back p i ys [] h = refl
count-put_back p i [] (x ∷ xs) h = elim (Bool-cases (p x)) [
  | inl e ↦ absurd (rw e at h)
  | inr e ↦ omega (arith, count-put_back p i [] xs (rw e at h))
]
count-put_back p i (y ∷ ys) (x ∷ xs) h = elim (Bool-cases (p x)) [
  | inl e ↦
      let both : (y.id ≡ x.id) × SameIds ys (select p xs) = rw e at h in
      rw (e, both.0) (omega (arith, count-put_back p i ys xs both.1))
  | inr e ↦ rw e (omega (arith, count-put_back p i (y ∷ ys) xs (rw e at h)))
]

SameIds-trans : (xs ys zs : List Item) → SameIds xs ys → SameIds ys zs → SameIds xs zs
SameIds-trans [] [] zs h k = k
SameIds-trans [] (y ∷ ys) zs h k = absurd h
SameIds-trans (x ∷ xs) [] zs h k = absurd h
SameIds-trans (x ∷ xs) (y ∷ ys) [] h k = absurd k
SameIds-trans (x ∷ xs) (y ∷ ys) (z ∷ zs) h k = (h.0 ∙ k.0, SameIds-trans xs ys zs h.1 k.1)

module _ (py : PyText) (c : Config) (sv : Services) (keeps : KeepsIds sv) (i : String) where
  count-scrubbed : (m : PiiMode) (xs : List Item) → count i (scrubbed c sv m xs) ≡ count i xs
  count-scrubbed pii_off xs = refl
  count-scrubbed _ xs =
      ground (arith, keeps.scrub_batch (all_labeled xs) xs i, keeps.scrub_batch false xs i)

  count-deduplicated :
      (xs : List Item)
      → count i (deduplicated c sv xs).0 + count i (deduplicated c sv xs).1 ≡ count i xs
  count-deduplicated xs = ground (arith, keeps.exact xs i, keeps.minhash xs i, keeps.semantic xs i)

  count-scored : (m : QualityMode) (xs : List Item) → count i (scored_items c sv m xs) ≡ count i xs
  count-scored quality_off xs = refl
  count-scored sampled xs = refl
  count-scored llm xs =
      count-put_back (refinable c) i (sv.audit (sv.refine (select (refinable c) (sv.audit xs))))
        (sv.audit xs) (SameIds-trans _ _ _ (keeps.audit _) (keeps.refine _))
      ∙ count-SameIds i (sv.audit xs) xs (keeps.audit xs)

  total-filtered : (m : QualityMode) (s : State) → total i (filtered c m s) ≡ total i s
  total-filtered llm s = total-sift filter (filter_reason c) i s
  total-filtered _ s = refl

  total-classified : (s : State) → total i (classified py c sv s) ≡ total i s
  total-classified s = ground (
    arith,
    keeps.classify_batch (schema_of c sv s) s.accepted i,
    total-sift classify (failure_reason py) i
        (record s { accepted = sv.classify_batch (schema_of c sv s) s.accepted }),
  )

  total-work : (g : Stage) (s : State) → total i (work py c sv g s) ≡ total i s
  unfolding run_validate run_pii run_profile run_dedup run_score_refine run_filter run_classify
  total-work validate s = total-sift validate (invalid_reason py sv) i s
  total-work pii s = omega (arith, count-scrubbed (pii_mode c s.accepted) s.accepted)
  total-work profile s = refl
  total-work dedup s = omega (
    arith,
    count-deduplicated s.accepted,
    count-append i s.rejected
        (map (λ x. reject dedup (dedup_reason py x) x) (deduplicated c sv s.accepted).1),
    count-map (λ x. reject dedup (dedup_reason py x) x) i (deduplicated c sv s.accepted).1
        (λ x. refl),
  )
  total-work score_refine s = omega (arith, count-scored (quality_mode_of c s.accepted) s.accepted)
  total-work filter s = total-filtered (quality_mode_of c s.accepted) s
  total-work classify s = ground (arith, total-classified s)

  total-run_stage : (g : Stage) (s : State) → total i (run_stage py c sv g s) ≡ total i s
  unfolding run_stage
  total-run_stage g s = elim (Bool-cases (done g s)) [
    | inl old ↦ rw old
    | inr new ↦ rw new (total-work g s)
  ]

  pub total-run_stages :
      (gs : List Stage) (s : State) → total i (run_stages py c sv gs s) ≡ total i s
  unfolding run_stages
  total-run_stages [] s = refl
  total-run_stages (g ∷ gs) s = total-run_stages gs (run_stage py c sv g s) ∙ total-run_stage g s

-- From new items or from what any checkpoint was read as, a run keeps every record: as many records of each id are
-- accepted or rejected at the end as at the start. Its services must keep ids.
pub total-run :
    (py : PyText) (c : Config) (sv : Services)
    → KeepsIds sv
    → (i : String) (s : State) → total i (run py c sv s) ≡ total i s
unfolding run
total-run py c sv keeps i s = total-run_stages py c sv keeps i stages s
