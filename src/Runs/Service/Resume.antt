-- ===== src/Runs/Service/Resume.antt =====
-- buffdata/runs/service.py: the submission of a run, and that of one in place of a run that ended badly.
pub mod Checked
mod Settled
mod Hashes
pub mod Restarted
pub mod Examples
use buffdata.Prelude.{
  [], none, some, true, false, zero, suc, refl, ℕ, String, Option, Bool, ◌==◌, if◌then◌else◌, ◌||◌,
  not, string_eq, ◌++◌, List,
}
use buffdata.Prelude.Json.{Json, Fields, end, field}
use buffdata.Runs.Tables.{Outside, RunBody, Db}
use buffdata.Security.Paths.{Location, Disk, FilePolicy, check_input}
use buffdata.Runs.Models.{RunStatus, RunSpec, status_eq}
use buffdata.Prelude.Exec.{Exec, Result, ◌>>=◌, pure, ◌>>◌, ok, err, raise}
use buffdata.Runs.Lifecycle.{Digests, interrupt_stale, submit, cancel}
use buffdata.Runs.Store.{Action, text_field, RunView, project_body, dataset, get}
use buffdata.Runs.Service.{stored, ServiceError, and_then, key_missing, conflict}
use buffdata.Models.Item.{get_field}
use buffdata.Runs.Service.Artifacts.{Python, hash_path, project_root, path_result, contained}

-- What a service has besides the tables: the digests of the store, the project's policy as `runtime_identity`
-- and as `check_input` see it, the parts of a stored path and the root of the projects. `identity` reads
-- the installed packages, and raises where plugins are not those that are approved.
pub record Host : Type 0 where
  pub digests : Digests
  pub python : Python
  pub disk : Disk
  pub identity : Json → Result ServiceError Json
  pub file_policy : Json → FilePolicy
  pub defaults : FilePolicy
  pub path_parts : String → Location
  pub root : Location
  pub copied : Python → Disk → Location → Location → (Location → List ℕ) × Disk

abbrev pub ServiceCall : Type 0 → Type 0
ServiceCall A = Exec ServiceError Db A

abbrev pub call : {A : Type 0} → Action A → ServiceCall A
call m s = stored (m s)

abbrev pub give : {A : Type 0} → Result ServiceError A → ServiceCall A
give r s = (r, s)

-- `record[key]`, which is a text.
abbrev pub text_at : String → Json → Result ServiceError String
text_at key (Json.obj fs) = elim (get_field key fs) [
  | some (Json.str x) ↦ ok x
  | _ ↦ err (key_missing key)
]
text_at key j = err (key_missing key)

-- `self.store.project(project).get("policy", {})`
abbrev pub policy_field : Json → Json
policy_field (Json.obj fs) = elim (get_field "policy" fs) [
  | some j ↦ j
  | none ↦ Json.obj Fields.end
]
policy_field j = Json.obj Fields.end

-- `policy`
unfoldable pub policy : String → ServiceCall Json
policy project = do row ← call (project_body project); pure (policy_field row.1)

abbrev pub registered_hash : Host → Location → String → Result ServiceError Location
registered_hash h path sha256 = and_then (hash_path h.python h.disk path) (λ actual.
    if not (actual == sha256)
    then err (conflict "Registered dataset integrity check failed")
    else ok path)

-- `dataset_path`
unfoldable pub dataset_path : Host → String → String → ServiceCall Location
dataset_path h project dataset_id = do
  record_body ← call (dataset project dataset_id)
  give (
      and_then (text_at "path" record_body) (λ relative.
        and_then (text_at "sha256" record_body) (λ sha256.
          and_then (project_root h.python h.disk h.root project) (λ base.
            and_then (contained h.disk base (base ++ h.path_parts relative))
              (λ path. registered_hash h path sha256)))))

-- The hash of one input, none where no dataset is named. No execution is under way when it is read.
abbrev pub hashed_input : Host → Json → Location → Result ServiceError (Option String)
hashed_input h p path =
    and_then (path_result (check_input h.disk none h.defaults (some (h.file_policy p)) path))
      (λ _. and_then (hash_path h.python h.disk path) (λ sha256. ok (some sha256)))

abbrev pub input_hash : Host → Json → String → Option String → ServiceCall (Option String)
input_hash h p project none = pure none
input_hash h p project (some dataset_id) =
    if dataset_id == ""
    then pure none
    else (do path ← dataset_path h project dataset_id; give (hashed_input h p path))

abbrev pub input_field : String → Option String → Fields → Fields
input_field key none rest = rest
input_field key (some sha256) rest = field key (Json.str sha256) rest

abbrev pub inputs_of : Option String → Option String → Fields
inputs_of source validation = input_field "source" source (input_field "validation" validation end)

abbrev pub parent_found : String → Option String → ServiceCall Unit
parent_found project none = pure tt
parent_found project (some parent) = call (get project parent) >> pure tt

-- The body of the new run.
abbrev pub new_body : Outside → RunSpec → Json → Fields → Option String → RunBody
new_body o spec identity inputs parent = record {
  id = o.token;
  spec = spec;
  created_at = o.iso;
  implementation = identity;
  inputs = Json.obj inputs;
  parent_run_id = parent;
  manifest = none;
  completed_at = none;
  error = none;
}

-- `submit`; `key` is the idempotency key that is given, or a fresh random one.
unfoldable pub submit_run :
    Host → Outside → RunSpec → String → String → Option String → ServiceCall RunView
submit_run h o spec actor key parent = do
  p ← policy spec.project_id
  parent_found spec.project_id parent
  identity ← give (h.identity p)
  source ← input_hash h p spec.project_id (some spec.dataset_id)
  validation ← input_hash h p spec.project_id spec.validation_dataset_id
  call (
      submit h.digests o spec actor key
        (new_body o spec identity (inputs_of source validation) parent))

-- The run as `resume` finds it: a running one is first interrupted where its worker is stale.
unfoldable pub settled : Outside → String → String → ServiceCall RunView
settled o project run_id = do
  previous ← call (get project run_id)
  if previous.status == RunStatus.running
      then call (interrupt_stale o project run_id)
      else pure previous

abbrev pub is_resumable : RunStatus → Bool
is_resumable s =
    (s == RunStatus.failed) || (s == RunStatus.cancelled) || (s == RunStatus.interrupted)

abbrev pub resumed_inputs :
    Host → Outside → String → String → RunView → RunView → ServiceCall RunView
resumed_inputs h o project actor previous result =
    if not (h.python.same_json result.body.inputs previous.body.inputs)
    then call (cancel o project result.body.id actor)
      >> raise (conflict "Resume input differs from original run")
    else pure result

abbrev pub resume_from :
    Host → Outside → Outside → String → String → String → String → RunView → ServiceCall RunView
resume_from h o o' project run_id actor key previous =
    if not (is_resumable previous.status)
    then raise (conflict "Only failed, cancelled, or interrupted runs can be resumed")
    else do
      p ← policy project
      identity ← give (h.identity p)
      if not (h.python.same_json identity previous.body.implementation)
          then raise (
              conflict
                "Resume requires identical implementation, dependencies, plugins, and policy")
          else do
            result ← submit_run h o previous.body.spec actor key (some run_id)
            resumed_inputs h o' project actor previous result

-- `resume`, with what each of its calls of the store reads from outside.
unfoldable pub resume :
    Host → Outside → Outside → Outside → String → String → String → String → ServiceCall RunView
resume h o o' o'' project run_id actor key = do
  previous ← settled o project run_id
  resume_from h o' o'' project run_id actor key previous
