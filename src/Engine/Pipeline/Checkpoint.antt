-- ===== src/Engine/Pipeline/Checkpoint.antt =====
-- buffdata/engine/pipeline.py: the checkpoints of `OptimizationPipeline`, which are written after each stage
-- and read when `run_file` starts again. Records are written by `to_dict` and read by `from_dict`. The
-- metrics of a checkpoint are left out.
use buffdata.Prelude.{
  String, Option, List, none, some, [], ◌∷◌, map, not, if◌then◌else◌, ◌==◌, string_eq,
}
use buffdata.Prelude.Exec.{Result, ok, err}
use buffdata.Prelude.Json.{Json, Fields}
use buffdata.Models.Item.{Item, PyText, json_true}
use buffdata.Models.Codec.{Codec, from_dict, to_dict, and_some}
use buffdata.Engine.Pipeline.{Stage, State, Schema, Config, Services, start, run}

pub record Checkpoint : Type 0 where
  pub fingerprint : String
  pub completed_stages : List Stage
  pub accepted : List Fields
  pub rejected : List Fields
  pub profile : Option Json

-- `DatasetProfile`: its `model_dump`, and its `model_validate`, none where it raises.
pub record Profiles : Type 0 where
  pub model_dump : Schema → Json
  pub model_validate : Json → Option Schema

pub data RunError : Type 0 where
  other_fingerprint invalid_checkpoint : RunError

abbrev pub profile_written : Profiles → Option Schema → Option Json
profile_written pf none = none
profile_written pf (some p) = some (pf.model_dump p)

-- `_save_checkpoint`
abbrev pub saved : Codec → Profiles → String → State → Checkpoint
saved ck pf fingerprint s = record {
  fingerprint = fingerprint;
  completed_stages = s.completed;
  accepted = map (to_dict ck) s.accepted;
  rejected = map (to_dict ck) s.rejected;
  profile = profile_written pf s.profile_found;
}

abbrev pub items_read : Codec → List Fields → Option (List Item)
items_read ck [] = some []
items_read ck (d ∷ ds) =
    let rest = items_read ck ds in
    and_some (from_dict ck d) (λ x. and_some rest (λ xs. some (x ∷ xs)))

-- `if profile_data: …`
abbrev pub profile_read : Profiles → Option Json → Option (Option Schema)
profile_read pf none = some none
profile_read pf (some j) =
    if json_true j then and_some (pf.model_validate j) (λ p. some (some p)) else some none

-- The variables of `run` that a checkpoint is read as, none where a row or the profile is refused.
abbrev pub loaded : Codec → Profiles → Checkpoint → Option State
loaded ck pf cp = and_some (items_read ck cp.accepted) (λ accepted.
    and_some (items_read ck cp.rejected) (λ rejected.
      and_some (profile_read pf cp.profile) (λ profile. some (record {
        accepted = accepted;
        rejected = rejected;
        profile_found = profile;
        completed = cp.completed_stages;
      }))))

abbrev pub valid : Option State → Result RunError State
valid none = err invalid_checkpoint
valid (some s) = ok s

-- `_load_checkpoint`, and what `run` does with its `resume_state`.
abbrev pub begun : Codec → Profiles → String → List Item → Option Checkpoint → Result RunError State
begun ck pf fingerprint items none = ok (start items)
begun ck pf fingerprint items (some cp) =
    if not (cp.fingerprint == fingerprint) then err other_fingerprint else valid (loaded ck pf cp)

abbrev pub completed : PyText → Config → Services → Result RunError State → Result RunError State
completed py c sv (err e) = err e
completed py c sv (ok s) = ok (run py c sv s)

-- `run_file`, on the items of the input file and the checkpoint that is there, if any.
abbrev pub run_file :
    PyText
    → Config
    → Services
    → Codec
    → Profiles
    → String
    → List Item
    → Option Checkpoint
    → Result RunError State
run_file py c sv ck pf fingerprint items checkpoint =
    completed py c sv (begun ck pf fingerprint items checkpoint)
