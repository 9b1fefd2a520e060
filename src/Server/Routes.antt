-- ===== src/Server/Routes.antt =====
-- buffdata/server/app.py: the routes for users. Upload, comparison, storage and the pages of the login are
-- left out, and the decryption of an artifact that is handed out.
use buffdata.Runs.Store.{update_project as store_update, get, run_events}
use buffdata.Runs.Store.{delete_dataset as store_delete}
use buffdata.Runs.Store.{list_datasets as store_datasets}
use buffdata.Runs.Service.Lineage.{lineage as run_lineage}
use buffdata.Runs.Sessions.{delete_webhook as store_delete_webhook, session}
use buffdata.Runs.Service.Artifacts.{verify as verify_run, RunManifest}
use buffdata.Runs.Service.Artifacts.{artifact as artifact_path}
use buffdata.Runs.Lifecycle.{cancel as store_cancel}
use buffdata.Runs.Service.Resume.{resume as resume_run}
use buffdata.Server.{Request, Role, runner}
use buffdata.Prelude.{
  [], none, some, ℕ, String, Bool, Option, List, any, ltb, ◌∷◌, ◌==◌, if◌then◌else◌, ◌&&◌, ◌||◌,
  not, all, string_eq, map, length, true,
}
use buffdata.Runs.Tables.{Outside, Event}
use buffdata.Server.{
  Server, Handler, level_of, role_of, authorize, service_call, identity, store_call, refuse,
  administrator, viewer,
}
use buffdata.Prelude.Exec.{Result, ◌>>=◌, err, pure, ◌>>◌}
use buffdata.Prelude.Json.{Json, Fields, end, field}
use buffdata.Runs.Models.{RunSpec, StoreError}
use buffdata.Security.Network.{Net, Url}
use buffdata.Runs.Service.Webhooks.{register_webhook, list_hooks}
use buffdata.Runs.Store.{RunView, list, project_body, all_projects, references}
use buffdata.Models.Item.{set_field, without}
use buffdata.Runs.Service.{ServiceError, value_error, found}
use buffdata.Runs.Service.Lineage.{Lineage}
use buffdata.Security.Paths.{Location}
use buffdata.Runs.Service.Resume.{give, submit_run, dataset_path}

pub data Route : Type 0 where
  list_projects logout : Route
  update_project : String → List (String × String) → Json → Route
  list_datasets : String → Route
  delete_dataset : String → String → String → Route
  submit : RunSpec → Option String → Route
  list_runs : String → Route
  get_run get_events lineage verify cancel resume : String → String → Route
  create_webhook : String → String → Url → List String → Route
  list_webhooks : String → Route
  delete_webhook : String → String → Route
  artifact : String → String → String → Route

pub data Answer : Type 0 where
  projects : List (String × String) → Answer
  done : Answer
  deleted : String → Answer
  records : List Json → Answer
  run_answer : RunView → Answer
  runs_answer : List RunView → Answer
  events_answer : List Event → Answer
  lineage_answer : Lineage → Answer
  webhook_answer : Json → Answer
  verified : ℕ → Answer
  file : Location → Answer

-- What the calls of a request read from outside, one after the other, and the network of the server.
pub record Around : Type 0 where
  pub clock : ℕ → Outside
  pub net : Net
  pub random : ℕ → String

abbrev pub is_role : String → Bool
is_role r = ltb 0 (level_of (some r))

-- One administrator at least, and no other roles than the three.
abbrev pub members_valid : List (String × String) → Bool
members_valid members = any (λ m. m.1 == "administrator") members && all (λ m. is_role m.1) members

abbrev pub members_json : List (String × String) → Fields
members_json [] = end
members_json (m ∷ ms) = field m.0 (Json.str m.1) (members_json ms)

abbrev pub fields_of : Json → Fields
fields_of (Json.obj fs) = fs
fields_of j = end

-- `current.update(body.model_dump(mode="json"))`
abbrev pub updated_body : Json → List (String × String) → Json → Json
updated_body current members policy = Json.obj (
    set_field "policy" policy
      (set_field "members" (Json.obj (members_json members)) (fields_of current)))

abbrev pub project_update :
    Around → String → List (String × String) → Json → String → Handler Answer
project_update a project members policy actor =
    if not (members_valid members) then refuse 400 else (do
      current ← store_call (project_body project)
      store_call (store_update (a.clock 1) project (updated_body current.1 members policy) actor)
      pure done)

-- A record without the path of its files.
abbrev pub without_path : Json → Json
without_path (Json.obj fs) = Json.obj (without "path" fs)
without_path j = j

abbrev pub dataset_deletion : Server → Around → String → String → String → String → Handler Answer
dataset_deletion v a project id confirm actor = if not (confirm == id) then refuse 400 else (do
  recent ← store_call (list project 1000)
  if any (λ (r : RunView). references id r.body.spec) recent then refuse 409 else do
    path ← service_call (dataset_path v.host project id)
    if v.host.disk.is_dir path
        then refuse 409
        else do store_call (store_delete (a.clock 1) project id actor); pure (deleted id))

abbrev pub submission :
    Server → Around → Request → RunSpec → Option String → String → Handler Answer
submission v a q spec parent actor =
    if q.idempotency_key == "" || ltb 200 (v.text_length q.idempotency_key) then refuse 400 else (do
      run ← service_call (submit_run v.host (a.clock 1) spec actor q.idempotency_key parent)
      pure (run_answer run))

-- `[{…} for p in store.all_projects() if actor in p.get("members", {})]`
abbrev pub own_projects : String → List (String × Json) → List (String × String)
own_projects actor [] = []
own_projects actor (p ∷ ps) = elim (role_of p.1 actor) [
  | none ↦ own_projects actor ps
  | some role ↦ (p.0, role) ∷ own_projects actor ps
]

-- The answer of `lineage`, which is never none.
abbrev pub lineage_result : Option (Result StoreError Lineage) → Result ServiceError Lineage
lineage_result none = err (value_error "")
lineage_result (some r) = found r

-- What a project, a route's least role and its body make.
abbrev pub guarded :
    {A : Type 0} → Server → Around → Request → String → Role → (String → Handler A) → Handler A
guarded v a q project minimum body = do
  actor ← authorize v (a.clock 0) q project minimum
  body actor

abbrev pub view : {A : Type 0} → (A → Answer) → Result ServiceError A → Handler Answer
view f r = do x ← service_call (give r); pure (f x)

-- The routes.
unfoldable pub handle : Server → Around → Request → Route → Handler Answer
handle v a q list_projects = do
  actor ← identity v (a.clock 0) q
  ps ← store_call all_projects
  pure (projects (own_projects actor ps))
handle v a q logout = do
  identity v (a.clock 0) q
  store_call (session v.token_hash (a.clock 1) q.cookie true)
  pure done
handle v a q (update_project project members policy) =
    guarded v a q project administrator (project_update a project members policy)
handle v a q (list_datasets project) =
    guarded v a q project viewer
      λ actor. do ds ← store_call (store_datasets project); pure (records (map without_path ds))
handle v a q (delete_dataset project id confirm) =
    guarded v a q project administrator (dataset_deletion v a project id confirm)
handle v a q (submit spec parent) =
    guarded v a q spec.project_id runner (submission v a q spec parent)
handle v a q (list_runs project) =
    guarded v a q project viewer
      λ actor. do rs ← store_call (list project 100); pure (runs_answer rs)
handle v a q (get_run project run_id) =
    guarded v a q project viewer
      λ actor. do run ← store_call (get project run_id); pure (run_answer run)
handle v a q (get_events project run_id) = guarded v a q project viewer λ actor. do
  store_call (get project run_id)
  es ← store_call (run_events project (some run_id))
  pure (events_answer es)
handle v a q (lineage project run_id) =
    guarded v a q project viewer
      λ actor s. view lineage_answer (lineage_result (run_lineage project run_id s)) s
handle v a q (create_webhook project url parts events) =
    guarded v a q project administrator λ actor. do
      body ← service_call (
          register_webhook a.net none (a.clock 1) project url parts events actor (a.random 0)
            (a.random 1))
      pure (webhook_answer body)
handle v a q (list_webhooks project) =
    guarded v a q project viewer
      λ actor. do hooks ← store_call (list_hooks project); pure (records hooks)
handle v a q (delete_webhook project id) =
    guarded v a q project administrator
      λ actor. do store_call (store_delete_webhook (a.clock 1) project id actor); pure (deleted id)
handle v a q (verify project run_id) = guarded v a q project viewer λ actor s.
    view (λ (m : RunManifest). verified (length m.artifacts))
      (verify_run v.host.python v.host.disk v.host.root project run_id s) s
handle v a q (artifact project run_id name) = guarded v a q project viewer λ actor s.
    (do
      path ←
          service_call
            (give (artifact_path v.host.python v.host.disk v.host.root project run_id name s))
      if v.host.disk.is_dir path then refuse 400 else pure (file path))
      s
handle v a q (cancel project run_id) = guarded v a q project runner λ actor. do
  run ← store_call (store_cancel (a.clock 1) project run_id actor)
  pure (run_answer run)
handle v a q (resume project run_id) = guarded v a q project runner λ actor. do
  run ←
      service_call
        (resume_run v.host (a.clock 1) (a.clock 2) (a.clock 3) project run_id actor (a.random 0))
  pure (run_answer run)

abbrev pub respond_to : Server → Around → Request → Route → Option String → Handler Answer
respond_to v a q route none = handle v a q route
respond_to v a q route (some origin) =
    if not (origin == "") && not (v.strip_slashes origin == v.strip_slashes v.public_url)
    then refuse 403
    else handle v a q route

-- `boundaries`: a request from another origin is denied.
unfoldable pub respond : Server → Around → Request → Route → Handler Answer
respond v a q route = respond_to v a q route q.origin
