-- ===== src/Runs/Runner.antt =====
-- buffdata/runs/runner.py: a local run, and the supervision of its subprocess. Its calls of the store are
-- transactions of their own, and what other processes do to the tables between two of them is a parameter.
-- The environment and the end of the subprocess, and the manifest that is written beside the artifacts, are
-- left out.
pub mod Watch
pub mod Ends
mod Manifests
pub mod Published
pub mod Examples
use buffdata.Prelude.{
  [], none, some, true, false, zero, suc, refl, ℕ, String, Bool, Option, ◌∷◌, ◌+◌, ◌*◌, ◌==◌,
  if◌then◌else◌, leb, string_eq, nat_eq, ◌++◌, List,
}
use buffdata.Prelude.Json.{Json}
use buffdata.Prelude.Exec.{Result, ok, err, pure, raise, ◌>>=◌, ◌>>◌}
use buffdata.Runs.Models.{
  RunStatus, queued, running, succeeded, failed, cancelled, interrupted, status_eq,
}
use buffdata.Runs.Tables.{Outside, Db}
use buffdata.Runs.Store.{RunView}
use buffdata.Runs.Sessions.{KeyManager}
use buffdata.Runs.Lifecycle.{claim, finish, heartbeat}
use buffdata.Runs.Service.{ServiceError, value_error, key_missing}
use buffdata.Runs.Service.Artifacts.{RunManifest, parsed, verify_manifest}
use buffdata.Runs.Service.Prepare.{prepare}
use buffdata.Runs.Service.Resume.{Host, ServiceCall, policy, give, call}
use buffdata.Runs.Service.Webhooks.{Wire, Post, dispatch_webhooks}
use buffdata.Security.Paths.{Location}

-- The surroundings of a local run: the return code of the subprocess at each look, none while it runs, and
-- the monotonic time in microseconds, first where the deadline is computed and then in each round; what the
-- other processes do to the tables before each transaction of the run; the files once the subprocess has
-- ended, from those that it began with; the parsed text of a file; Python's truth of a parsed value; the
-- seconds of a policy; and the text of a webhook's message.
pub record Machine : Type 0 where
  pub poll : ℕ → Option ℕ
  pub time : ℕ → ℕ
  pub clock : ℕ → Outside
  pub others : ℕ → Db → Db
  pub finished : Host → Host
  pub read_json : Location → Result ServiceError Json
  pub truth : Json → Bool
  pub execution_seconds : Json → ℕ
  pub keys : Option KeyManager
  pub wire : Wire
  pub payload : String → String → String → String

abbrev pub exit_status : ℕ → RunStatus
exit_status code = if code == 0 then succeeded else failed

-- A round of the loop of `supervise`: the look at the subprocess, the heartbeat and the deadline.
abbrev pub round :
    Machine
    → ℕ
    → (ℕ → ServiceCall Bool)
    → ℕ
    → ServiceCall (Option RunStatus)
    → Option ℕ
    → ServiceCall (Option RunStatus)
round m deadline beat i rest (some code) = pure (some (exit_status code))
round m deadline beat i rest none = beat i >>= λ stop.
    if stop
    then pure (some cancelled)
    else if leb deadline (m.time (i + 1))
    then pure (some failed)
    else rest

-- The loop, none where it is out of fuel.
unfoldable pub watch : Machine → ℕ → (ℕ → ServiceCall Bool) → ℕ → ℕ → ServiceCall (Option RunStatus)
watch m deadline beat zero i = pure none
watch m deadline beat (suc n) i =
    round m deadline beat i (watch m deadline beat n (i + 1)) (m.poll i)

abbrev pub outcome :
    Machine → Location → Option RunStatus → ServiceCall (Option (RunStatus × Option Json))
outcome m directory none = pure none
outcome m directory (some RunStatus.succeeded) = do
  manifest ← give (m.read_json (directory ++ "candidate-manifest.json" ∷ []))
  pure (some (succeeded, some manifest))
outcome m directory (some status) = pure (some (status, none))

-- A round sleeps for half a second before the next one, so there is no later round.
abbrev pub rounds : ℕ → ℕ
rounds seconds = 2 * seconds + 1

-- `supervise`
unfoldable pub supervise :
    Machine → Location → ℕ → (ℕ → ServiceCall Bool) → ServiceCall (Option (RunStatus × Option Json))
supervise m directory seconds beat = do
  status ← watch m (m.time 0 + seconds * 1000000) beat (rounds seconds) 0
  outcome m directory status

abbrev pub status_text : RunStatus → String
status_text queued = "queued"
status_text running = "running"
status_text succeeded = "succeeded"
status_text failed = "failed"
status_text cancelled = "cancelled"
status_text interrupted = "interrupted"

abbrev pub sent_or_raised : Db → Option (Db × List Post) → Result ServiceError Unit × Db
sent_or_raised s none = (err (key_missing "webhook"), s)
sent_or_raised s (some (t, posts)) = (ok tt, t)

-- The other processes have their turn.
abbrev pub meanwhile : Machine → ℕ → ServiceCall Unit
meanwhile m i s = (ok tt, m.others i s)

abbrev pub dispatch : Machine → String → String → RunStatus → ServiceCall Unit
dispatch m project run_id status s = sent_or_raised s (
    dispatch_webhooks m.wire project run_id (status_text status)
      (m.payload project run_id (status_text status)) s)

-- `if manifest: service.verify_manifest(…)`
abbrev pub checked : Machine → Host → String → String → Option Json → ServiceCall Unit
checked m h project run_id none = pure tt
checked m h project run_id (some manifest) =
    if m.truth manifest
    then (do
      x ← give (parsed h.python manifest)
      (λ s. give (verify_manifest h.python h.disk h.root project run_id x s) s)
      pure tt)
    else pure tt

abbrev pub run_error : RunStatus → Option String
run_error status =
    if status == succeeded then none else some "Execution stopped; no dataset published"

abbrev pub ended :
    Machine
    → Host
    → String
    → String
    → Option String
    → Option (RunStatus × Option Json)
    → ServiceCall (Option RunView)
ended m h project run_id lease none = pure none
ended m h project run_id lease (some (status, manifest)) = do
  checked m h project run_id manifest
  meanwhile m 2
  result ← call (finish (m.clock 2) project run_id lease status manifest (run_error status) none)
  meanwhile m 3
  dispatch m project run_id result.status
  pure (some result)

abbrev pub beat_of : Machine → String → String → Option String → ℕ → ServiceCall Bool
beat_of m project run_id lease i =
    meanwhile m (i + 6) >> call (heartbeat (m.clock (i + 4)) project run_id lease)

-- The body of the `try`.
unfoldable pub attempt : Machine → Host → String → String → RunView → ServiceCall (Option RunView)
attempt m h project run_id run = do
  meanwhile m 0
  prepared ← prepare h m.keys (m.clock 1) run.body
  meanwhile m 1
  p ← policy project
  result ← supervise m prepared.0 (m.execution_seconds p) (beat_of m project run_id run.lease)
  ended m (m.finished h) project run_id run.lease result

-- The except branch: the run has failed, and what was raised is raised again.
abbrev pub caught :
    Machine
    → String
    → String
    → Option String
    → Result ServiceError (Option RunView) × Db
    → Result ServiceError (Option RunView) × Db
caught m project run_id lease (ok view, s) = (ok view, s)
caught m project run_id lease (err e, s) =
    (do
      meanwhile m 4
      call (
          finish (m.clock 3) project run_id lease failed none
            (some "Execution failed; no dataset published") none)
      meanwhile m 5
      dispatch m project run_id failed
      raise e)
      s

abbrev pub started :
    Machine → Host → String → String → Option RunView → ServiceCall (Option RunView)
started m h project run_id none =
    raise (value_error "Another run is active, or this run is not queued")
started m h project run_id (some run) =
    λ s. caught m project run_id run.lease (attempt m h project run_id run s)

-- `run_local`
unfoldable pub run_local : Machine → Host → String → String → ServiceCall (Option RunView)
run_local m h project run_id = do
  run ← call (claim (m.clock 0) project (some run_id))
  started m h project run_id run
