-- ===== src/Runs/Store.antt =====
-- buffdata/runs/store.py: the operations of `RunStore`. Each is an action on the tables; what runs
-- inside `with self.transaction()` is rolled back when it raises. The proofs are in the modules
-- below.
pub mod Deletion
pub mod Examples
use buffdata.Prelude.{
  ℕ, String, Bool, true, false, Option, none, some, List, [], ◌∷◌, ◌++◌, map, ◌&&◌, ◌||◌, not,
  string_eq, nat_eq, ◌==◌, if◌then◌else◌, first, update, any, select, take, ltb, sort_by,
}
use Prim.Native.Nat.{min, max}
use buffdata.Prelude.Exec.{Exec, Result, pure, raise, gets, modify, rollback_on_raise, ◌>>=◌, ◌>>◌}
use buffdata.Prelude.Json.{Json, Fields}
use buffdata.Runs.Models.{RunStatus, RunSpec, StoreError, status_eq}
use buffdata.Runs.Tables.{
  Dataset, RunBody, Run, Event, Db, Outside, option_eq, truthy, has_project, lock_project,
}

abbrev pub Action : Type 0 → Type 0
Action A = Exec StoreError Db A

-- What a caller is given of a run: its body with four columns, and the lease where it was claimed.
pub record RunView : Type 0 where
  pub body : RunBody
  pub status : RunStatus
  pub actor : String
  pub cancel_requested : Bool
  pub heartbeat : Option ℕ
  pub lease : Option String

-- `_run`
abbrev pub run_view : Run → RunView
run_view r = record {
  body = r.body;
  status = r.status;
  actor = r.actor;
  cancel_requested = r.cancel_requested;
  heartbeat = r.heartbeat;
  lease = none;
}

-- `event`
abbrev pub event : Outside → String → String → Json → Option String → Db → Db
event o project kind body run_id d = record d {
  events =
      d.events
      ++ record {
        run_id = run_id;
        project = project;
        created = o.event_time;
        kind = kind;
        body = body;
      }
        ∷ [];
}

abbrev pub text_field : String → String → Json
text_field k v = Json.obj (Fields.field k (Json.str v) Fields.end)

abbrev pub no_body : Json
no_body = Json.obj Fields.end

-- The rows that `where(runs.c.project == project, runs.c.id == run_id)` selects.
abbrev pub is_run : String → String → Run → Bool
is_run project run_id r = (r.project == project) && (r.id == run_id)

abbrev pub live_dataset : String → String → Dataset → Bool
live_dataset project id d = (d.project == project) && (d.id == id) && not d.deleted

-- `get`
unfoldable pub get : String → String → Action RunView
get project run_id s = elim (first (is_run project run_id) s.runs) [
  | none ↦ (Result.err (StoreError.key_error "Run not found"), s)
  | some r ↦ (Result.ok (run_view r), s)
]

-- `list`
unfoldable pub list : String → ℕ → Action (List RunView)
unfolding sort_by
list project limit = gets λ s. map run_view (
    take (min (max limit 1) 1000)
      (sort_by (λ a b. ltb b.created a.created) (select (λ r. r.project == project) s.runs)))

-- `run_events`
unfoldable pub run_events : String → Option String → Action (List Event)
unfolding sort_by
run_events project run_id = gets λ s. take 10000 (
    sort_by (λ a b. ltb a.created b.created)
      (select (λ e. (e.project == project) && (not (truthy run_id) || (e.run_id == run_id)))
        s.events))

-- `ensure_project`
unfoldable pub ensure_project : Outside → String → Json → Action Unit
ensure_project o project body = rollback_on_raise λ s.
    if has_project s.projects project
    then pure tt s
    else modify
        (λ d. event o project "project.created" no_body none (record d {
          projects = d.projects ++ record { id = project; body = body; active_run = none } ∷ [];
        }))
        s

-- `project`
unfoldable pub project_body : String → Action (String × Json)
project_body project s = elim (first (λ r. r.id == project) s.projects) [
  | none ↦ raise (StoreError.key_error "Project not found") s
  | some r ↦ pure (r.id, r.body) s
]

-- `all_projects`
pub all_projects : Action (List (String × Json))
all_projects = gets λ s. map (λ r. (r.id, r.body)) s.projects

-- `update_project`
unfoldable pub update_project : Outside → String → Json → String → Action Unit
update_project o project body actor = rollback_on_raise (
    modify λ d. event o project "project.updated" (text_field "actor" actor) none (record d {
      projects = update (λ r. r.id == project) (λ r. record r { body = body }) d.projects;
    }))

-- `add_dataset`
unfoldable pub add_dataset : Outside → String → String → Json → Action Json
add_dataset o project id body = rollback_on_raise λ s.
    if any (λ d. d.id == id) s.datasets
    then raise StoreError.integrity_error s
    else pure body (
        event o project "dataset.registered" (text_field "dataset_id" id) none (record s {
          datasets =
              s.datasets
              ++ record { id = id; project = project; body = body; deleted = false } ∷ [];
        }))

-- `dataset`
unfoldable pub dataset : String → String → Action Json
dataset project id s = elim (first (live_dataset project id) s.datasets) [
  | none ↦ raise (StoreError.key_error "Dataset not found") s
  | some d ↦ pure d.body s
]

-- `list_datasets`
unfoldable pub list_datasets : String → Action (List Json)
list_datasets project =
    gets λ s. map (λ d. d.body) (select (λ d. (d.project == project) && not d.deleted) s.datasets)

-- `dataset_id in (spec["dataset_id"], spec.get("validation_dataset_id"))`
abbrev pub references : String → RunSpec → Bool
references id spec = (spec.dataset_id == id) || (spec.validation_dataset_id == some id)

-- `delete_dataset`
unfoldable pub delete_dataset : Outside → String → String → String → Action Unit
delete_dataset o project id actor = rollback_on_raise do
  lock_project project
  referenced ← gets λ s. any (λ r. (r.project == project) && references id r.body.spec) s.runs
  if referenced
      then raise (StoreError.run_conflict "Dataset is referenced by run history")
      else modify λ d.
        event o project "dataset.deleted"
          (Json.obj (
            Fields.field "dataset_id" (Json.str id)
              (Fields.field "actor" (Json.str actor) Fields.end)))
          none
          (record d {
            datasets =
                update (λ r. (r.project == project) && (r.id == id))
                  (λ r. record r { deleted = true }) d.datasets;
          })
