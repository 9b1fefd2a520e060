-- ===== src/Runs/Lifecycle.antt =====
-- buffdata/runs/store.py: the life of a run, from `submit` through `claim`, `heartbeat` and
-- `finish`, with cancellation and the recovery of stale runs.
pub mod Invariant
pub mod Kept
pub mod Bystanders
pub mod Calls
pub mod Reach
pub mod Safety
pub mod Replies
pub mod Queue
pub mod Success
pub mod Examples
use buffdata.Prelude.{
  ℕ, ◌+◌, ◌-◌, String, Bool, true, false, Option, none, some, List, [], ◌∷◌, ◌++◌, ◌&&◌, ◌||◌, not,
  string_eq, nat_eq, ◌==◌, if◌then◌else◌, first, update, any, select, leb, ltb, sort_by,
}
use buffdata.Prelude.Exec.{Result, pure, raise, gets, modify, rollback_on_raise, ◌>>=◌, ◌>>◌}
use buffdata.Prelude.Json.{Json, Fields}
use buffdata.Runs.Models.{
  RunStatus, RunSpec, StoreError, status_eq, queued, running, succeeded, failed, cancelled,
  interrupted, run_conflict, key_error, integrity_error, no_result_found,
}
use buffdata.Runs.Tables.{
  Project, RunBody, Run, Db, Outside, option_eq, truthy, active_of, has_project, lock_project,
}
use buffdata.Runs.Store.{Action, RunView, run_view, event, text_field, no_body, is_run, get}

-- The two SHA-256 digests of canonical JSON that `submit` takes.
pub record Digests : Type 0 where
  pub of_spec : RunSpec → String
  pub of_key : String → String → String → String

-- `if dataset_id and not conn.execute(select(datasets.c.id) …).first()`
abbrev pub dataset_missing : Db → String → Option String → Bool
dataset_missing d project none = false
dataset_missing d project (some id) =
    not (id == "")
    && not (any (λ r. (r.project == project) && (r.id == id) && not r.deleted) d.datasets)

-- The row that `submit` inserts.
abbrev pub queued_row : Digests → Outside → RunSpec → String → String → RunBody → Run
queued_row h o spec actor key body = record {
  id = body.id;
  project = spec.project_id;
  actor = actor;
  status = queued;
  created = o.now;
  body = body;
  idempotency = h.of_key spec.project_id actor key;
  request_hash = h.of_spec spec;
  lease = none;
  heartbeat = none;
  cancel_requested = false;
}

-- An insert into `managed_runs`: its id and its idempotency key are unique.
abbrev pub insert_run : Run → Action Unit
insert_run r s =
    if any (λ q. (q.id == r.id) || (q.idempotency == r.idempotency)) s.runs
    then raise integrity_error s
    else modify (λ d. record d { runs = d.runs ++ r ∷ [] }) s

-- The part of `submit` after its look at earlier submissions: `some view` is an early return.
abbrev pub submit_new :
    Digests → Outside → RunSpec → String → String → RunBody → Action (Option RunView)
submit_new h o spec actor key body s =
    if dataset_missing s spec.project_id (some spec.dataset_id)
      || dataset_missing s spec.project_id spec.validation_dataset_id
    then raise (run_conflict "Dataset was deleted before submission") s
    else (do
      insert_run (queued_row h o spec actor key body)
      modify (event o spec.project_id "run.queued" (text_field "actor" actor) (some body.id))
      pure none)
        s

abbrev pub submit_after :
    Digests → Outside → RunSpec → String → String → RunBody → Option Run → Action (Option RunView)
submit_after h o spec actor key body none = submit_new h o spec actor key body
submit_after h o spec actor key body (some old) =
    if old.request_hash == h.of_spec spec
    then pure (some (run_view old))
    else raise (run_conflict "Idempotency key was used with different content")

abbrev pub returned_or_get : String → String → Option RunView → Action RunView
returned_or_get project run_id none = get project run_id
returned_or_get project run_id (some view) = pure view

-- The transaction of `submit`: an earlier submission under the same key comes first.
abbrev pub submit_rows :
    Digests → Outside → RunSpec → String → String → RunBody → Action (Option RunView)
submit_rows h o spec actor key body s =
    submit_after h o spec actor key body
      (first (λ r. r.idempotency == h.of_key spec.project_id actor key) s.runs) s

-- `submit`
unfoldable pub submit : Digests → Outside → RunSpec → String → String → RunBody → Action RunView
submit h o spec actor key body = do
  early ← rollback_on_raise (submit_rows h o spec actor key body)
  returned_or_get spec.project_id body.id early

-- `if run_id: query = query.where(runs.c.id == run_id)`
abbrev pub claimable : String → Option String → Run → Bool
claimable project run_id r =
    (r.project == project) && (r.status == queued) && (not (truthy run_id) || (run_id == some r.id))

-- The first row of the query ordered by creation; rows created at one time keep their order here.
unfoldable pub next_queued : String → Option String → List Run → Option Run
unfolding sort_by
next_queued project run_id rows =
    first (λ _. true)
      (sort_by (λ a b. ltb a.created b.created) (select (claimable project run_id) rows))

-- The three writes of `claim`.
unfoldable pub start_run : Outside → String → String → Db → Db
start_run o project run_id d = event o project "run.started" no_body (some run_id) (record d {
  runs =
      update (λ r. r.id == run_id)
        (λ r. record r { status = running; lease = some o.token; heartbeat = some o.now }) d.runs;
  projects = update (λ p. p.id == project) (λ p. record p { active_run = some run_id }) d.projects;
})

abbrev pub claim_found : Outside → String → Option Run → Action (Option RunView)
claim_found o project none = pure none
claim_found o project (some r) = do
  modify (start_run o project r.id)
  pure (some (record (run_view r) { status = running; lease = some o.token }))

-- `claim`
unfoldable pub claim : Outside → String → Option String → Action (Option RunView)
unfolding start_run next_queued
claim o project run_id = rollback_on_raise do
  lock_project project
  active ← gets λ s. active_of s.projects project
  if truthy active then pure none else λ s.
      claim_found o project (next_queued project run_id s.runs) s

-- The row of a run that is running under a lease.
abbrev pub is_leased : String → String → Option String → Run → Bool
is_leased project run_id lease r =
    (r.project == project) && (r.id == run_id) && (r.lease == lease) && (r.status == running)

-- `heartbeat`
unfoldable pub heartbeat : Outside → String → String → Option String → Action Bool
heartbeat o project run_id lease = rollback_on_raise λ s.
    elim (first (is_leased project run_id lease) s.runs) [
      | none ↦ raise (run_conflict "Run lease is no longer valid") s
      | some r ↦ pure r.cancel_requested (record s {
        runs = update (λ q. q.id == run_id) (λ q. record q { heartbeat = some o.now }) s.runs;
      })
    ]

-- `status not in {"succeeded", "failed", "cancelled", "interrupted"}`, the other way round.
abbrev pub is_terminal : RunStatus → Bool
is_terminal queued = false
is_terminal running = false
is_terminal _ = true

-- "run." + status
abbrev pub status_event : RunStatus → String
status_event queued = "run.queued"
status_event running = "run.running"
status_event succeeded = "run.succeeded"
status_event failed = "run.failed"
status_event cancelled = "run.cancelled"
status_event interrupted = "run.interrupted"

-- `{"error": error} if error else {}`
abbrev error_body : Option String → Json
error_body none = no_body
error_body (some e) = if e == "" then no_body else text_field "error" e

-- `(row["heartbeat"] or 0) >= stale_before`, where `stale_before` is given.
abbrev pub renewed : Option ℕ → Option ℕ → Bool
renewed none heartbeat = false
renewed (some t) none = leb t 0
renewed (some t) (some h) = leb t h

-- The writes of `finish` with the status and the manifest that it has settled on.
unfoldable pub end_run :
    Outside → String → String → RunStatus → Option Json → Option String → RunBody → Db → Db
end_run o project run_id status manifest error body d =
    event o project (status_event status) (error_body error) (some run_id) (record d {
      runs =
          update (λ r. r.id == run_id)
            (λ r. record r {
              status = status;
              lease = none;
              body = record body {
                completed_at = some o.iso;
                manifest = if status == succeeded then manifest else none;
                error = error;
              };
            })
            d.runs;
      projects = update (λ p. p.id == project) (λ p. record p { active_run = none }) d.projects;
    })

abbrev pub finish_found :
    Outside
    → String
    → String
    → RunStatus
    → Option Json
    → Option String
    → Option ℕ
    → Option Run
    → Action Unit
finish_found o project run_id status manifest error stale_before none =
    raise (run_conflict "Run lease is no longer valid")
finish_found o project run_id status manifest error stale_before (some r) =
    if renewed stale_before r.heartbeat
    then raise (run_conflict "Worker heartbeat was renewed; recovery is no longer safe")
    else modify (
        if r.cancel_requested
        then end_run o project run_id cancelled none error r.body
        else end_run o project run_id status manifest error r.body)

-- The transaction of `finish`.
abbrev pub finish_rows :
    Outside
    → String
    → String
    → Option String
    → RunStatus
    → Option Json
    → Option String
    → Option ℕ
    → Action Unit
finish_rows o project run_id lease status manifest error stale_before = do
  lock_project project
  row ← gets λ s. first (is_leased project run_id lease) s.runs
  finish_found o project run_id status manifest error stale_before row

-- `finish`
unfoldable pub finish :
    Outside
    → String
    → String
    → Option String
    → RunStatus
    → Option Json
    → Option String
    → Option ℕ
    → Action RunView
unfolding end_run
finish o project run_id lease status manifest error stale_before =
    if not (is_terminal status) then raise (run_conflict "Invalid terminal status") else do
      rollback_on_raise (finish_rows o project run_id lease status manifest error stale_before)
      get project run_id

-- The writes of `cancel` to a run that has not ended.
unfoldable pub request_cancel : Outside → String → String → String → RunStatus → Db → Db
request_cancel o project run_id actor status d =
    event o project "run.cancel_requested" (text_field "actor" actor) (some run_id) (record d {
      runs =
          update (λ r. r.id == run_id)
            (λ r. record r {
              cancel_requested = true;
              status = if status == queued then cancelled else running;
            })
            d.runs;
    })

abbrev pub cancel_found : Outside → String → String → String → Option Run → Action Unit
cancel_found o project run_id actor none = raise (key_error "Run not found")
cancel_found o project run_id actor (some r) =
    if (r.status == queued) || (r.status == running)
    then modify (request_cancel o project run_id actor r.status)
    else pure tt

-- The transaction of `cancel`.
abbrev pub cancel_rows : Outside → String → String → String → Action Unit
cancel_rows o project run_id actor = do
  lock_project project
  row ← gets λ s. first (is_run project run_id) s.runs
  cancel_found o project run_id actor row

-- `cancel`
unfoldable pub cancel : Outside → String → String → String → Action RunView
unfolding request_cancel
cancel o project run_id actor = do
  rollback_on_raise (cancel_rows o project run_id actor)
  get project run_id

-- 120 seconds
abbrev pub stale_after : ℕ
stale_after = 120000000

abbrev pub or_zero : Option ℕ → ℕ
or_zero none = 0
or_zero (some h) = h

-- `interrupt_stale`: the look at the row, in a read of its own before `finish` begins.
abbrev pub interrupt_found : Outside → String → String → Option Run → Action RunView
interrupt_found o project run_id none = raise no_result_found
interrupt_found o project run_id (some r) =
    if not (r.status == running) || ltb (o.now - or_zero r.heartbeat) stale_after
    then raise (run_conflict "Worker is not stale; cancel it before resuming")
    else finish o project run_id r.lease interrupted none (some "Worker heartbeat expired")
        (some (o.now - stale_after))

unfoldable pub interrupt_stale : Outside → String → String → Action RunView
interrupt_stale o project run_id s =
    interrupt_found o project run_id (first (is_run project run_id) s.runs) s
