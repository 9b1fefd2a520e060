-- ===== src/Server/Claims.antt =====
-- The work that a worker is given.
use buffdata.Prelude.{none, some, true, ℕ, String, List, ◌≡◌, ◌≤◌, contains, All, string_eq}
use buffdata.Prelude.Exec.{ok}
use buffdata.Runs.Tables.{Outside, Db, Run}
use buffdata.Runs.Store.{RunView}
use buffdata.Runs.Lifecycle.{claim, claimable, start_run}
use buffdata.Runs.Lifecycle.Queue.{is_row}
use buffdata.Security.Paths.{Location}
use buffdata.Server.{Server}
use buffdata.Server.Workers.{Files, Work}
use buffdata.Runs.Service.Prepare.Prepared.{Prepared}
use buffdata.Server.Tokens.{Authorized}

-- A claim that found no run in the projects before this one.
abbrev Found : (ℕ → Outside) → List String → Db → RunView → Db → Type 0
Found clock ps s view t =
    (project : String) × (n : ℕ) × (contains project ps ≡ true)
    × (claim (clock n) project none s ≡ (ok (some view), t))

-- The run that a worker is given, as it was queued, and its tables once it has started.
abbrev pub Given : Server → Files → String → Db → Work → Type 0
Given v f token s w =
    (project : String) × (o : Outside) × (r : Run) × (directory : Location) × Authorized v token
      project
    × (is_row s.runs r ≡ true)
    × (claimable project none r ≡ true)
    × All (λ (q : Run). claimable project none q ≡ true → r.created ≤ q.created) s.runs
    × Prepared v.host r.body directory (start_run o project r.id s)
    × (w.run_id ≡ r.body.id)
    × (w.lease ≡ some o.token)
    × (w.project_id ≡ r.body.spec.project_id)

module _ (v : Server) (f : Files) (token : String) (s t : Db) (w : Work) where
  -- The answer of a claim is of the run that was prepared.
  abbrev IsWork : RunView → Type 0
  IsWork run =
      (w.run_id ≡ run.body.id) × (w.lease ≡ run.lease) × (w.project_id ≡ run.body.spec.project_id)
