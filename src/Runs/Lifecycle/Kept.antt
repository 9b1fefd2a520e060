-- ===== src/Runs/Lifecycle/Kept.antt =====
-- The writes that the calls are made of. A predicate on tables that these writes keep is kept by
-- every call.
use buffdata.Prelude.{
  String, ◌≡◌, true, false, Option, ◌⊎◌, update, ◌==◌, some, ◌≢◌, none, any, ◌||◌, ◌++◌, ◌∷◌, [],
  string_eq,
}
use buffdata.Runs.Lifecycle.Invariant.{
  IsSound, IsRow, start_run-IsSound, end_run-IsSound, request_cancel-IsSound, heartbeat_row-IsSound,
  append-IsSound, ensure_row-IsSound, update_row-IsSound, same_rows-IsSound,
}
use buffdata.Runs.Tables.{Db, Outside, Run, has_project, truthy, active_of}
use buffdata.Runs.Models.{queued, RunStatus, running}
use buffdata.Runs.Lifecycle.{start_run, is_terminal, end_run, request_cancel}
use buffdata.Prelude.Json.{Json}

pub record IsKept (P : Db → Type 0) : Type 0 where
  pub sound : (d : Db) → P d → IsSound d
  pub start :
      (o : Outside) (project : String) (r : Run) (d : Db)
      → P d
      → IsRow d r
      → r.project ≡ project
      → r.status ≡ queued
      → has_project d.projects project ≡ true
      → truthy (active_of d.projects project) ≡ false
      → P (start_run o project r.id d)
  pub end :
      (o : Outside) (project : String) (status : RunStatus) (manifest : Option Json)
      (error : Option String) (r : Run) (d : Db)
      → P d
      → IsRow d r
      → r.project ≡ project
      → r.status ≡ running
      → is_terminal status ≡ true
      → P (end_run o project r.id status manifest error r.body d)
  pub stop :
      (o : Outside) (project actor : String) (r : Run) (d : Db)
      → P d
      → IsRow d r
      → (r.status ≡ queued) ⊎ (r.status ≡ running)
      → P (request_cancel o project r.id actor r.status d)
  pub beat :
      (o : Outside) (r : Run) (d : Db)
      → P d
      → IsRow d r
      → r.status ≡ running
      → P (record d {
        runs = update (λ q. q.id == r.id) (λ q. record q { heartbeat = some o.now }) d.runs;
      })
  pub add :
      (r : Run) (d : Db)
      → P d
      → r.id ≢ ""
      → r.status ≡ queued
      → r.lease ≡ none
      → r.cancel_requested ≡ false
      → any (λ q. (q.id == r.id) || (q.idempotency == r.idempotency)) d.runs ≡ false
      → P (record d { runs = d.runs ++ r ∷ [] })
  pub ensure :
      (id : String) (body : Json) (d : Db)
      → P d
      → P (record d {
        projects = d.projects ++ record { id = id; body = body; active_run = none } ∷ [];
      })
  pub configure :
      (id : String) (body : Json) (d : Db)
      → P d
      → P (record d {
        projects = update (λ r. r.id == id) (λ r. record r { body = body }) d.projects;
      })
  -- Writes to the other tables.
  pub elsewhere : (d e : Db) → e.runs ≡ d.runs → e.projects ≡ d.projects → P d → P e

pub IsSound-IsKept : IsKept IsSound
IsSound-IsKept = record {
  sound = λ d h. h;
  start = λ o p r d h row e q has idle. start_run-IsSound o p r d h row e has idle;
  end = λ o p s m e r d h row pe run t. end_run-IsSound o p s m e r.body r d h row pe run t;
  stop = request_cancel-IsSound;
  beat = λ o r d h row run. heartbeat_row-IsSound o r.id d h;
  add = append-IsSound;
  ensure = ensure_row-IsSound;
  configure = update_row-IsSound;
  elsewhere = same_rows-IsSound;
}
