-- ===== src/Server.antt =====
-- buffdata/server/app.py: the HTTP interface to managed runs. A request is what its handler reads of it.
-- A handler answers or raises an error with its HTTP status, and works on the tables.
pub mod Routes
pub mod Access
pub mod Permission
pub mod Workers
pub mod Claims
pub mod Replies
pub mod Tokens
mod Candidates
pub mod Finish
pub mod Examples
use buffdata.Prelude.{
  [], none, some, true, false, zero, suc, refl, ℕ, String, Option, List, if◌then◌else◌, ◌==◌, ltb,
  string_eq, option_eq,
}
use buffdata.Prelude.Json.{Json, Fields}
use buffdata.Prelude.Exec.{raise, Result, Exec, ok, ◌>>=◌, err, pure}
use buffdata.Runs.Store.{Action, text_field, project_body}
use buffdata.Runs.Service.Resume.{Host, ServiceCall}
use buffdata.Runs.Tables.{Outside, Db, Session}
use buffdata.Runs.Service.{
  ServiceError, of_store, stored, of_path, of_network, value_error, key_missing, conflict,
}
use buffdata.Runs.Models.{StoreError, run_conflict, key_error}
use buffdata.Models.Item.{get_field}
use buffdata.Runs.Sessions.{session}

pub data HttpError : Type 0 where
  http_error : ℕ → HttpError

abbrev pub Handler : Type 0 → Type 0
Handler A = Exec HttpError Db A

-- The exception handlers: the status of what the store and the service raise.
abbrev pub store_status : StoreError → ℕ
store_status (run_conflict m) = 409
store_status (key_error m) = 404
store_status e = 500

abbrev pub service_status : ServiceError → ℕ
service_status (of_store e) = store_status e
service_status (of_path e) = 403
service_status (of_network e) = 403
service_status (value_error m) = 400
service_status (key_missing m) = 404
service_status (conflict m) = 409

abbrev pub answered : {A : Type 0} → Result ServiceError A × Db → Result HttpError A × Db
answered (ok a, s) = (ok a, s)
answered (err e, s) = (err (http_error (service_status e)), s)

abbrev pub service_call : {A : Type 0} → ServiceCall A → Handler A
service_call m s = answered (m s)

abbrev pub store_call : {A : Type 0} → Action A → Handler A
store_call m s = answered (stored (m s))

pub data Method : Type 0 where
  reads writes : Method

-- What a handler reads of a request. `writes` is any method other than GET, HEAD and OPTIONS; `bearer` is
-- what stands after `Bearer ` in the authorization header, and a text that is missing is empty.
pub record Request : Type 0 where
  pub method : Method
  pub origin : Option String
  pub bearer : Option String
  pub cookie : String
  pub csrf_token : String
  pub idempotency_key : String

-- What the server has besides the service: the hash of a token, the actor of a bearer token that the
-- identity provider has signed, and the worker token hash of each configured project.
pub record Server : Type 0 where
  pub host : Host
  pub token_hash : String → String
  pub verify_bearer_token : String → Option String
  pub worker_hashes : List (String × String)
  pub text_length : String → ℕ
  pub public_url : String
  pub strip_slashes : String → String

abbrev pub refuse : {A : Type 0} → ℕ → Handler A
refuse n = raise (http_error n)

-- `body.get(key)` of a JSON object, where it is a text.
abbrev pub text_of : String → Json → Option String
text_of key (Json.obj fs) = elim (get_field key fs) [ some (Json.str x) ↦ some x | _ ↦ none ]
text_of key j = none

-- A session that has an actor has a CSRF token too; `session["csrf"]` would raise `KeyError`.
abbrev pub csrf_answer : Request → String → Option String → Result HttpError String
csrf_answer q actor none = err (http_error 404)
csrf_answer q actor (some csrf) = if csrf == q.csrf_token then ok actor else err (http_error 403)

-- The end of `identity` for a session: a method that writes also needs its CSRF token.
abbrev pub csrf_checked : Request → Json → String → Method → Result HttpError String
csrf_checked q body actor reads = ok actor
csrf_checked q body actor writes = csrf_answer q actor (text_of "csrf" body)

abbrev pub named_actor : Request → Json → Option String → Result HttpError String
named_actor q body none = err (http_error 401)
named_actor q body (some actor) = csrf_checked q body actor q.method

abbrev pub session_actor : Request → Option Json → Result HttpError String
session_actor q none = err (http_error 401)
session_actor q (some body) = named_actor q body (text_of "actor" body)

abbrev pub bearer_actor : Option String → Result HttpError String
bearer_actor none = err (http_error 401)
bearer_actor (some actor) = ok actor

abbrev pub reply : {A : Type 0} → Result HttpError A → Handler A
reply r s = (r, s)

abbrev pub identity_by : Server → Outside → Request → Option String → Handler String
identity_by v o q (some token) = reply (bearer_actor (v.verify_bearer_token token))
identity_by v o q none = do
  found ← store_call (session v.token_hash o q.cookie false)
  reply (session_actor q found)

-- `identity`
unfoldable pub identity : Server → Outside → Request → Handler String
identity v o q = identity_by v o q q.bearer

pub data Role : Type 0 where
  viewer runner administrator : Role

abbrev pub level : Role → ℕ
level viewer = 1
level runner = 2
level administrator = 3

-- `levels.get(role, 0)`
abbrev pub level_of : Option String → ℕ
level_of none = 0
level_of (some role) =
    if role == "viewer"
    then 1
    else if role == "runner"
    then 2
    else if role == "administrator"
    then 3
    else 0

abbrev pub members_of : Json → Json
members_of (Json.obj fs) = elim (get_field "members" fs) [ some j ↦ j | none ↦ Json.obj Fields.end ]
members_of j = Json.obj Fields.end

-- `body.get("members", {}).get(actor)`
abbrev pub role_of : Json → String → Option String
role_of body actor = text_of actor (members_of body)

-- `authorize`
unfoldable pub authorize : Server → Outside → Request → String → Role → Handler String
authorize v o q project minimum = do
  actor ← identity v o q
  row ← store_call (project_body project)
  if ltb (level_of (role_of row.1 actor)) (level minimum) then refuse 403 else pure actor
