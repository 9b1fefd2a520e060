-- ===== src/Server/Workers.antt =====
-- buffdata/server/app.py: the routes for workers. `files` is what the server reads beside the tables; the
-- manifest of a run that it writes beside the artifacts is left out.
use buffdata.Prelude.{
  [], none, some, ℕ, String, Bool, Option, List, ◌∷◌, ◌==◌, if◌then◌else◌, ◌&&◌, not, ltb, contains,
  string_eq, nat_eq, ◌+◌, ◌++◌, map, select,
}
use buffdata.Prelude.Json.{Json}
use buffdata.Prelude.Exec.{Result, ok, err, pure, raise, ◌>>=◌, ◌>>◌}
use buffdata.Models.Item.{get_field}
use buffdata.Runs.Models.{RunStatus, queued, running, succeeded, failed, cancelled, interrupted}
use buffdata.Runs.Store.{Action, RunView}
use buffdata.Runs.Tables.{Outside, Db}
use buffdata.Runs.Sessions.{KeyManager}
use buffdata.Runs.Lifecycle.{claim, finish, heartbeat}
use buffdata.Runs.Service.Prepare.{prepare}
use buffdata.Runs.Service.Webhooks.{Wire, dispatch_webhooks, Post}
use buffdata.Runs.Service.Resume.{policy, give, ServiceCall}
use buffdata.Runs.Service.{ServiceError}
use buffdata.Runs.Service.Artifacts.{
  RunManifest, run_directory, project_root, contained, parsed, verify_manifest,
}
use buffdata.Security.Paths.{Location}
use buffdata.Server.{
  Server, Handler, HttpError, http_error, refuse, reply, service_call, store_call,
}

-- What a request of a worker reads from outside, call by call; the order in which the projects of a token
-- are tried; the parsed text of a file, with the status where it cannot be read or parsed; the messages of
-- webhooks with the text that is sent; and the seconds of a policy.
pub record Files : Type 0 where
  pub clock : ℕ → Outside
  pub shuffle : List String → List String
  pub read_json : Location → Result HttpError Json
  pub wire : Wire
  pub payload : String → String → String → String
  pub keys : Option KeyManager
  pub execution_seconds : Json → ℕ

-- `worker`: the projects whose configured hash is that of the token. `token` is the authorization header
-- less a leading `Bearer `.
abbrev pub is_authorized : (String → ℕ) → String → String × String → Bool
is_authorized text_length digest c = (text_length c.1 == 64) && (c.1 == digest)

abbrev pub some_project : List String → Result HttpError (List String)
some_project [] = err (http_error 401)
some_project (p ∷ ps) = ok (p ∷ ps)

unfoldable pub worker : Server → String → Result HttpError (List String)
worker v token = some_project (
    map (λ (c : String × String). c.0)
      (select (is_authorized v.text_length (v.token_hash token)) v.worker_hashes))

abbrev pub only_project : List String → Result HttpError String
only_project (p ∷ []) = ok p
only_project ps = err (http_error 400)

abbrev pub project_given : List String → Option Json → Result HttpError String
project_given authorized none = only_project authorized
project_given authorized (some (Json.str project)) =
    if contains project authorized then ok project else err (http_error 403)
project_given authorized (some j) = err (http_error 403)

abbrev pub body_field : String → Json → Option Json
body_field key (Json.obj fs) = get_field key fs
body_field key j = none

-- `worker_project`
unfoldable pub worker_project : List String → Json → Result HttpError String
worker_project authorized body = project_given authorized (body_field "project_id" body)

-- `body["lease"]`, which may be null.
abbrev pub lease_given : Option Json → Result HttpError (Option String)
lease_given none = err (http_error 404)
lease_given (some (Json.str lease)) = ok (some lease)
lease_given (some Json.null) = ok none
lease_given (some j) = err (http_error 500)

-- The first project, in this order, that has a run to claim.
unfoldable pub claim_any : (ℕ → Outside) → ℕ → List String → Action (Option RunView)
claim_any clock n [] = pure none
claim_any clock n (p ∷ ps) =
    let rest = claim_any clock (n + 1) ps in
    claim (clock n) p none >>= λ run. elim run [ some r ↦ pure (some r) | none ↦ rest ]

pub record Work : Type 0 where
  pub run_id : String
  pub lease : Option String
  pub project_id : String
  pub seconds : ℕ
  pub data_key : Option String

abbrev pub told : Db → Option (Db × List Post) → Db
told s none = s
told s (some (t, posts)) = t

-- `dispatch_webhooks`; where it raises, the tables are as they were.
abbrev pub notify : Files → String → String → String → Db → Db
notify f project run_id ending s =
    told s (dispatch_webhooks f.wire project run_id ending (f.payload project run_id ending) s)

abbrev pub work : Files → String → RunView → Location × Option String → ServiceCall Work
work f project run (directory, key) = do
  p ← policy project
  pure (record {
    run_id = run.body.id;
    lease = run.lease;
    project_id = project;
    seconds = f.execution_seconds p;
    data_key = key;
  })

-- The except branch of `claim`: the run has failed, and what was raised is raised again.
abbrev pub preflight_failed : Files → String → RunView → ServiceError → Handler (Option Work)
preflight_failed f project run e = do
  store_call (
      finish (f.clock 1) project run.body.id run.lease failed none
        (some "Execution preflight failed") none)
  λ s. service_call (raise e) (notify f project run.body.id "failed" s)

abbrev pub preflight :
    Server
    → Files
    → RunView
    → Result ServiceError (Location × Option String) × Db
    → Result HttpError (Option Work) × Db
preflight v f run (err e, s) = preflight_failed f run.body.spec.project_id run e s
preflight v f run (ok prepared, s) =
    service_call (do w ← work f run.body.spec.project_id run prepared; pure (some w)) s

abbrev pub claimed : Server → Files → Option RunView → Handler (Option Work)
claimed v f none s = pure none s
claimed v f (some run) s = preflight v f run (prepare v.host f.keys (f.clock 0) run.body s)

-- The route `claim`
unfoldable pub claim_route : Server → Files → String → Handler (Option Work)
claim_route v f token = do
  candidates ← reply (worker v token)
  run ← store_call (claim_any f.clock 2 (f.shuffle candidates))
  claimed v f run

-- The route `heartbeat`: whether the worker is to stop.
unfoldable pub heartbeat_route : Server → Files → String → String → Json → Handler Bool
heartbeat_route v f token run_id body = do
  authorized ← reply (worker v token)
  project ← reply (worker_project authorized body)
  lease ← reply (lease_given (body_field "lease" body))
  store_call (heartbeat (f.clock 0) project run_id lease)

abbrev pub status_of : String → Option RunStatus
status_of s =
    if s == "queued"
    then some queued
    else if s == "running"
    then some running
    else if s == "succeeded"
    then some succeeded
    else if s == "failed"
    then some failed
    else if s == "cancelled"
    then some cancelled
    else if s == "interrupted"
    then some interrupted
    else none

-- A status that is no text, or not one of a run, is not a terminal one.
abbrev pub status_given : Option Json → Result HttpError RunStatus
status_given none = err (http_error 404)
status_given (some (Json.str s)) = elim (status_of s) [
  | some status ↦ ok status
  | none ↦ err (http_error 409)
]
status_given (some j) = err (http_error 409)

-- 16 MiB
abbrev pub manifest_limit : ℕ
manifest_limit = 16777216

-- The file of the manifest that a worker leaves, in the directory of the run.
abbrev pub candidate_path : Server → String → String → ServiceCall Location
candidate_path v project run_id = do
  directory ← give (run_directory v.host.python v.host.disk v.host.root project run_id)
  root ← give (project_root v.host.python v.host.disk v.host.root project)
  give (contained v.host.disk root (directory ++ "candidate-manifest.json" ∷ []))

abbrev pub verified : Server → String → String → Json → ServiceCall RunManifest
verified v project run_id manifest = do
  m ← give (parsed v.host.python manifest)
  λ s. give (verify_manifest v.host.python v.host.disk v.host.root project run_id m s) s

abbrev pub candidate : Server → Files → String → String → Handler Json
candidate v f project run_id = do
  path ← service_call (candidate_path v project run_id)
  if not (v.host.disk.exists path)
      then refuse 500
      else if ltb manifest_limit (v.host.disk.size path)
      then refuse 409
      else do
        manifest ← reply (f.read_json path)
        service_call (verified v project run_id manifest)
        pure manifest

-- A manifest that is verified is not empty, so it stands for no error.
abbrev pub stop_error : Option Json → Option String
stop_error none = some "Execution stopped; no dataset published"
stop_error (some manifest) = none

abbrev pub manifest_for : Server → Files → String → String → RunStatus → Handler (Option Json)
manifest_for v f project run_id RunStatus.succeeded = do
  manifest ← candidate v f project run_id
  pure (some manifest)
manifest_for v f project run_id status = pure none

abbrev pub ending : RunStatus → String
ending queued = "queued"
ending running = "running"
ending succeeded = "succeeded"
ending failed = "failed"
ending cancelled = "cancelled"
ending interrupted = "interrupted"

-- The end of the route `finish`, with the messages that are sent behind the answer.
abbrev pub finished :
    Files → String → String → Option String → RunStatus → Option Json → Handler RunStatus
finished f project run_id lease status manifest = do
  result ←
      store_call
        (finish (f.clock 1) project run_id lease status manifest (stop_error manifest) none)
  λ s. (ok result.status, notify f project run_id (ending result.status) s)

abbrev pub finish_checked :
    Server → Files → String → String → Option String → RunStatus → Handler RunStatus
finish_checked v f project run_id lease status = do
  manifest ← manifest_for v f project run_id status
  finished f project run_id lease status manifest

-- The route `finish`
unfoldable pub finish_route : Server → Files → String → String → Json → Handler RunStatus
finish_route v f token run_id body = do
  authorized ← reply (worker v token)
  project ← reply (worker_project authorized body)
  lease ← reply (lease_given (body_field "lease" body))
  store_call (heartbeat (f.clock 0) project run_id lease)
  status ← reply (status_given (body_field "status" body))
  finish_checked v f project run_id lease status
