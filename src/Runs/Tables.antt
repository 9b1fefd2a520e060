-- ===== src/Runs/Tables.antt =====
-- buffdata/runs/store.py: the tables of the metadata database, and the rows that queries find.
-- A table is the list of its rows in the order of insertion. A JSON column holds the value that
-- `canonical` writes and `json.loads` reads back. The random primary key of an event is left out,
-- since nothing reads it. Times are whole microseconds.
pub use buffdata.Prelude.{option_beq, option_beq_iff, option_eq}
use buffdata.Prelude.{
  ℕ, String, Bool, false, Option, none, some, List, [], ◌∷◌, not, string_eq, ◌==◌, if◌then◌else◌,
  any,
}
use buffdata.Prelude.Exec.{Exec, Result}
use buffdata.Prelude.Json.{Json}
use buffdata.Runs.Models.{RunStatus, RunSpec, StoreError}

pub record Project : Type 0 where
  pub id : String
  pub body : Json
  pub active_run : Option String

pub record Dataset : Type 0 where
  pub id : String
  pub project : String
  pub body : Json
  pub deleted : Bool

-- The JSON body of a run, as `RunService.submit` builds it and `finish` completes it.
pub record RunBody : Type 0 where
  pub id : String
  pub spec : RunSpec
  pub created_at : String
  pub implementation : Json
  pub inputs : Json
  pub parent_run_id : Option String
  pub manifest : Option Json
  pub completed_at : Option String
  pub error : Option String

pub record Run : Type 0 where
  pub id : String
  pub project : String
  pub actor : String
  pub status : RunStatus
  pub created : ℕ
  pub body : RunBody
  pub idempotency : String
  pub request_hash : String
  pub lease : Option String
  pub heartbeat : Option ℕ
  pub cancel_requested : Bool

pub record Event : Type 0 where
  pub run_id : Option String
  pub project : String
  pub created : ℕ
  pub kind : String
  pub body : Json

pub record Session : Type 0 where
  pub id : String
  pub expires : ℕ
  pub body : Json

pub record Webhook : Type 0 where
  pub id : String
  pub project : String
  pub body : Json
  pub deleted : Bool

pub record ProjectKey : Type 0 where
  pub project : String
  pub wrapped_data_key : String

pub record Db : Type 0 where
  pub projects : List Project
  pub datasets : List Dataset
  pub runs : List Run
  pub events : List Event
  pub sessions : List Session
  pub webhooks : List Webhook
  pub project_keys : List ProjectKey

-- What a call reads from outside: the clock, the clock at the time of its event, the ISO time and
-- the fresh random token.
pub record Outside : Type 0 where
  pub now : ℕ
  pub event_time : ℕ
  pub iso : String
  pub token : String

-- Python's truth of a text that may be `None`.
abbrev pub truthy : Option String → Bool
truthy none = false
truthy (some s) = not (s == "")

-- `projects.c.active_run` of the row of a project.
abbrev pub active_of : List Project → String → Option String
active_of [] p = none
active_of (r ∷ rs) p = if r.id == p then r.active_run else active_of rs p

abbrev pub has_project : List Project → String → Bool
has_project rs p = any (λ r. r.id == p) rs

-- `select(projects.c.id).where(id == project).with_for_update()).one()`
abbrev pub lock_project : String → Exec StoreError Db Unit
lock_project p = λ s.
    if has_project s.projects p
    then (Result.ok tt, s)
    else (Result.err StoreError.no_result_found, s)
