-- ===== src/Runs/Service/Resume/Restarted.antt =====
-- The run that `resume` queues in place of one that has stopped.
use buffdata.Prelude.{some, true, String, Option, ◌≡◌, first, string_eq}
use buffdata.Prelude.Exec.{ok}
use buffdata.Prelude.Json.{Json}
use buffdata.Runs.Models.{queued, status_eq}
use buffdata.Runs.Tables.{Db, Outside, Run, RunBody}
use buffdata.Runs.Store.{RunView, run_view, is_run}
use buffdata.Runs.Service.Resume.{Host, policy, is_resumable, inputs_of}
use buffdata.Runs.Service.Resume.Settled.{GivenUp}
use buffdata.Runs.Service.Resume.Hashes.{Registered}

-- The row that `resume` has queued: a child of the run, with its specification, and with hashes of the inputs
-- that the datasets are registered with.
abbrev pub Queued : Host → Outside → String → RunBody → Db → Db → Run → Type 0
Queued h o run_id body s t n =
    (first (is_run body.spec.project_id o.token) t.runs ≡ some n)
    × (n.status ≡ queued)
    × (n.body.id ≡ o.token)
    × (n.body.spec ≡ body.spec)
    × (n.body.parent_run_id ≡ some run_id)
    × ((source : Option String) × (validation : Option String) × (n.body.inputs
          ≡ Json.obj (inputs_of source validation))
        × Registered h body.spec.project_id (some body.spec.dataset_id) source s
        × Registered h body.spec.project_id body.spec.validation_dataset_id validation s)
    × (h.python.same_json n.body.inputs body.inputs ≡ true)

-- What `resume` does: the run has stopped, or its worker was given up; it has the implementation and the policy
-- of today; and the row in its place is queued.
abbrev pub Restarted : Host → Outside → Outside → String → String → Db → RunView → Db → Type 0
Restarted h o o' project run_id s view t =
    (s1 : Db) × (r : Run) × (n : Run) × (p : Json) × (identity : Json) × GivenUp o project run_id s
      s1
    × (first (is_run project run_id) s1.runs ≡ some r)
    × (is_resumable r.status ≡ true)
    × (policy project s1 ≡ (ok p, s1))
    × (h.identity p ≡ ok identity)
    × (h.python.same_json identity r.body.implementation ≡ true)
    × Queued h o' run_id r.body s1 t n
    × (run_view n ≡ view)
