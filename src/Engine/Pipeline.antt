-- ===== src/Engine/Pipeline.antt =====
-- buffdata/engine/pipeline.py: the seven stages of `OptimizationPipeline.run`, on the records that
-- are still accepted and those that were rejected. What the stages call stands in `Services`.
pub mod Conservation
pub mod Strict
pub mod Resume
pub mod Checkpoint
pub mod Resumed
pub mod Examples
use Prim.Native.String.{◌++◌ as append}
use buffdata.Prelude.{
  ℕ, String, some, Bool, Option, false, List, if◌then◌else◌, ◌++◌, [], none, select, true, not,
  ◌&&◌, ◌∷◌, any, ◌==◌, is_empty, ◌||◌, map, ltb, all, string_eq,
}
use buffdata.Models.Item.{
  PyText, DatasetFormat, Item, get_field, QualityScore, set_field, json_true, has_true, is_labeled,
}
use buffdata.Engine.Validator.{validate_item}
use buffdata.Prelude.Json.{Json, Fields}

pub data Stage : Type 0 where
  validate pii profile dedup score_refine filter classify : Stage

abbrev pub stage_beq : Stage → Stage → Bool
stage_beq validate validate = true
stage_beq pii pii = true
stage_beq profile profile = true
stage_beq dedup dedup = true
stage_beq score_refine score_refine = true
stage_beq filter filter = true
stage_beq classify classify = true
stage_beq _ _ = false

abbrev pub stage_name : Stage → String
stage_name validate = "validate"
stage_name pii = "pii"
stage_name profile = "profile"
stage_name dedup = "dedup"
stage_name score_refine = "score_refine"
stage_name filter = "filter"
stage_name classify = "classify"

pub data PiiMode : Type 0 where
  identifiers all_entities pii_off : PiiMode

pub data QualityMode : Type 0 where
  llm sampled quality_off : QualityMode

pub data ClassificationMode : Type 0 where
  auto classification_off binary multi_class multi_label : ClassificationMode

-- The settings of `PipelineConfig` that the stages read.
pub record Config : Type 0 where
  pub strict : Bool  -- accuracy_contract == "strict"
  pub scrub_pii : Bool
  pub classification_pii_mode : PiiMode
  pub dedup_method : String
  pub quality_mode : QualityMode
  pub refine_below_score : ℕ
  pub filter_min_score : ℕ
  pub classification : ClassificationMode
  pub classification_confidence : ℕ

-- A classification schema, and what of it a dataset profile holds.
pub record Schema : Type 0 where
  pub applicable : Bool
  pub task_type : Option String
  pub classes : List String
  pub confidence : ℕ

-- The optimizers and the model provider behind them.
pub record Services : Type 0 where
  pub plugins : Item → List String
  pub scrub_batch : Bool → List Item → List Item  -- identifiers only, or all entities
  pub profile_of : List Item → Schema
  pub deduplicate_exact : List Item → List Item × List Item
  pub deduplicate_minhash : List Item → List Item × List Item
  pub deduplicate_semantic_local : List Item → List Item × List Item
  pub audit : List Item → List Item
  pub refine : List Item → List Item
  pub resolve_schema : List Item → Schema
  pub classify_batch : Schema → List Item → List Item

-- The variables of `run` that the stages change, and the stages completed.
pub record State : Type 0 where
  pub accepted : List Item
  pub rejected : List Item
  pub profile_found : Option Schema
  pub completed : List Stage

abbrev pub done : Stage → State → Bool
done g s = any (stage_beq g) s.completed

abbrev pub all_labeled : List Item → Bool
all_labeled xs = not (is_empty xs) && all is_labeled xs

-- `strict_labeled`
abbrev pub strict_labeled : Config → List Item → Bool
strict_labeled c xs = c.strict && all_labeled xs

-- `_reject`
abbrev pub reject : Stage → String → Item → Item
reject g reason x = record x {
  metadata =
      set_field "rejection"
        (Json.obj (
          Fields.field "stage" (Json.str (stage_name g))
            (Fields.field "reason" (Json.str reason) Fields.end)))
        x.metadata;
}

abbrev pub keep_unless : Option String → Item → List Item → List Item
keep_unless none x xs = x ∷ xs
keep_unless (some r) x xs = xs

abbrev pub reject_for : Stage → Option String → Item → List Item → List Item
reject_for g none x xs = xs
reject_for g (some r) x xs = reject g r x ∷ xs

-- A loop that keeps the items without a reason against them, and rejects the others.
abbrev pub kept_items : (Item → Option String) → List Item → List Item
kept_items reason [] = []
kept_items reason (x ∷ xs) = keep_unless (reason x) x (kept_items reason xs)

abbrev pub rejected_items : Stage → (Item → Option String) → List Item → List Item
rejected_items g reason [] = []
rejected_items g reason (x ∷ xs) = reject_for g (reason x) x (rejected_items g reason xs)

abbrev pub sift : Stage → (Item → Option String) → State → State
sift g reason s = record s {
  accepted = kept_items reason s.accepted;
  rejected = s.rejected ++ rejected_items g reason s.accepted;
}

-- `"; ".join(errors)`
abbrev pub join_errors : List String → String
join_errors [] = ""
join_errors (e ∷ []) = e
join_errors (e ∷ f ∷ es) = append e (append "; " (join_errors (f ∷ es)))

abbrev pub invalid_reason : PyText → Services → Item → Option String
invalid_reason py sv x =
    let errors = validate_item py sv.plugins x in
    if is_empty errors then none else some (join_errors errors)

pub run_validate : PyText → Services → State → State
run_validate py sv s = sift validate (invalid_reason py sv) s

-- The policy that the `pii` stage settles on.
abbrev pub pii_mode : Config → List Item → PiiMode
pii_mode c xs =
    if strict_labeled c xs
    then pii_off
    else if all_labeled xs
    then c.classification_pii_mode
    else all_entities

abbrev pub scrubbed : Config → Services → PiiMode → List Item → List Item
scrubbed c sv pii_off xs = xs
scrubbed c sv identifiers xs = if c.scrub_pii then sv.scrub_batch (all_labeled xs) xs else xs
scrubbed c sv all_entities xs = if c.scrub_pii then sv.scrub_batch false xs else xs

pub run_pii : Config → Services → State → State
run_pii c sv s = record s { accepted = scrubbed c sv (pii_mode c s.accepted) s.accepted }

pub run_profile : Services → State → State
run_profile sv s = record s { profile_found = some (sv.profile_of s.accepted) }

abbrev pub dedup_method_of : Config → List Item → String
dedup_method_of c xs =
    if strict_labeled c xs
    then "off"
    else if c.dedup_method == "auto"
    then (if all_labeled xs then "exact" else "minhash")
    else c.dedup_method

abbrev pub deduplicated : Config → Services → List Item → List Item × List Item
deduplicated c sv xs =
    let method = dedup_method_of c xs in
    if method == "off"
    then (xs, [])
    else if method == "exact"
    then sv.deduplicate_exact xs
    else if method == "semantic-local"
    then sv.deduplicate_semantic_local xs
    else sv.deduplicate_minhash xs

-- `str(item.metadata.get("dedup_reason", "duplicate"))`
abbrev pub dedup_reason : PyText → Item → String
dedup_reason py x = elim (get_field "dedup_reason" x.metadata) [
  | none ↦ "duplicate"
  | some v ↦ py.str v
]

pub run_dedup : PyText → Config → Services → State → State
run_dedup py c sv s =
    let (kept, duplicates) = deduplicated c sv s.accepted in
    record s {
      accepted = kept;
      rejected = s.rejected ++ map (λ x. reject dedup (dedup_reason py x) x) duplicates;
    }

abbrev pub quality_mode_of : Config → List Item → QualityMode
quality_mode_of c xs = if strict_labeled c xs then quality_off else c.quality_mode

-- `item.format.value in {"alpaca", "chat", "dpo"}`
abbrev pub is_generative : DatasetFormat → Bool
is_generative DatasetFormat.raw = false
is_generative DatasetFormat.custom = false
is_generative _ = true

abbrev pub below : Option QualityScore → ℕ → Bool
below none bound = false
below (some q) bound = ltb q.overall_score bound

abbrev pub refinable : Config → Item → Bool
refinable c x =
    below x.quality_score c.refine_below_score
    && is_generative x.format
    && not (has_true "scoring_error" x.metadata)

-- The items of a list that pass a test are changed in place: `changed` has them in their order.
abbrev pub put_back : (Item → Bool) → List Item → List Item → List Item
put_back p changed [] = []
put_back p [] (x ∷ xs) = x ∷ put_back p [] xs
put_back p (y ∷ ys) (x ∷ xs) = if p x then y ∷ put_back p ys xs else x ∷ put_back p (y ∷ ys) xs

-- Where the mode is "sampled", copies are scored.
abbrev pub scored_items : Config → Services → QualityMode → List Item → List Item
scored_items c sv quality_off xs = xs
scored_items c sv sampled xs = xs
scored_items c sv llm xs =
    let scored = sv.audit xs in
    put_back (refinable c) (sv.audit (sv.refine (select (refinable c) scored))) scored

pub run_score_refine : Config → Services → State → State
run_score_refine c sv s = record s {
  accepted = scored_items c sv (quality_mode_of c s.accepted) s.accepted;
}

-- Why the `filter` stage rejects a record. The numbers in the texts are left out.
abbrev pub low_score : Config → Option QualityScore → Option String
low_score c none = some "No final quality score was produced."
low_score c (some q) =
    if not q.is_safe
    then some "Record failed the safety assessment."
    else if ltb q.overall_score c.filter_min_score
    then some "Final quality score is below the minimum."
    else none

abbrev pub filter_reason : Config → Item → Option String
filter_reason c x =
    if has_true "scoring_error" x.metadata
    then some "Provider scoring failed"
    else low_score c x.quality_score

abbrev pub filtered : Config → QualityMode → State → State
filtered c llm s = sift filter (filter_reason c) s
filtered c _ s = s

pub run_filter : Config → State → State
run_filter c s = filtered c (quality_mode_of c s.accepted) s

-- `str(item.metadata["classification_error"])`, where there is one.
abbrev pub failure_reason : PyText → Item → Option String
failure_reason py x = elim (get_field "classification_error" x.metadata) [
  | none ↦ none
  | some v ↦ if json_true v then some (py.str v) else none
]

abbrev pub no_schema : Schema
no_schema = record { applicable = false; task_type = none; classes = []; confidence = 0 }

abbrev pub schema_of : Config → Services → State → Schema
schema_of c sv s = elim c.classification [
  | auto ↦ elim s.profile_found [ none ↦ no_schema | some p ↦ p ]
  | _ ↦ sv.resolve_schema s.accepted
]

abbrev pub is_auto : ClassificationMode → Bool
is_auto auto = true
is_auto _ = false

abbrev pub is_off : ClassificationMode → Bool
is_off classification_off = true
is_off _ = false

abbrev pub classified : PyText → Config → Services → State → State
classified py c sv s =
    let schema = schema_of c sv s in
    if not schema.applicable || ltb schema.confidence c.classification_confidence
    then s
    else sift classify (failure_reason py)
        (record s { accepted = sv.classify_batch schema s.accepted })

pub run_classify : PyText → Config → Services → State → State
run_classify py c sv s =
    if strict_labeled c s.accepted
      || is_off c.classification
      || (all_labeled s.accepted && is_auto c.classification)
    then s
    else classified py c sv s

abbrev pub work : PyText → Config → Services → Stage → State → State
work py c sv validate = run_validate py sv
work py c sv pii = run_pii c sv
work py c sv profile = run_profile sv
work py c sv dedup = run_dedup py c sv
work py c sv score_refine = run_score_refine c sv
work py c sv filter = run_filter c
work py c sv classify = run_classify py c sv

-- `if stage not in completed: …; completed.append(stage)`
pub run_stage : PyText → Config → Services → Stage → State → State
run_stage py c sv g s =
    if done g s
    then s
    else let t = work py c sv g s in record t { completed = t.completed ++ g ∷ [] }

pub run_stages : PyText → Config → Services → List Stage → State → State
run_stages py c sv [] s = s
run_stages py c sv (g ∷ gs) s = run_stages py c sv gs (run_stage py c sv g s)

abbrev pub stages : List Stage
stages = validate ∷ pii ∷ profile ∷ dedup ∷ score_refine ∷ filter ∷ classify ∷ []

abbrev pub start : List Item → State
start items = record { accepted = items; rejected = []; profile_found = none; completed = [] }

-- The stages of `run`, from its variables as they stand before the first stage: those of new items, or those
-- that a checkpoint was read as.
pub run : PyText → Config → Services → State → State
run py c sv s = run_stages py c sv stages s
