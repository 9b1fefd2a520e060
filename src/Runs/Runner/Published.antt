-- ===== src/Runs/Runner/Published.antt =====
-- What a local run that succeeded has passed.
use buffdata.Prelude.{
  none, some, false, suc, ℕ, String, Option, ◌+◌, ◌≤◌, ◌≡◌, string_eq, first, ◌⊎◌,
}
use buffdata.Prelude.Json.{Json}
use buffdata.Runs.Models.{RunStatus, succeeded}
use buffdata.Runs.Tables.{Db, Run}
use buffdata.Runs.Store.{RunView, is_run}
use buffdata.Runs.Lifecycle.{is_leased}
use buffdata.Runs.Lifecycle.Invariant.{IsSound}
use buffdata.Runs.Lifecycle.Replies.{finished_row}
use buffdata.Runs.Service.Artifacts.{RunManifest}
use buffdata.Runs.Service.Artifacts.Verified.{Checked}
use buffdata.Runs.Service.Prepare.Prepared.{Prepared}
use buffdata.Runs.Service.Resume.{Host}
use buffdata.Runs.Runner.{Machine}
use buffdata.Security.Paths.{Location}
use buffdata.Runs.Runner.Manifests.{Manifest}

-- What a local run that succeeded has passed. `s1` is the tables that it was prepared from, `s2` those in
-- which its manifest was checked, and `s3` those that `finish` left; the other processes come between them.
abbrev pub LocalRun : Machine → Host → String → String → Option String → Db → Type 0
LocalRun m h project run_id lease t =
    (run : RunView) × (directory : Location) × (s1 : Db) × (s2 : Db) × (s3 : Db) × (r : Run)
    × (j : Json) × (run.lease ≡ lease)
    × Prepared h run.body directory s1
    × Manifest m (m.finished h) project run_id directory s2 j
    × (first (is_leased project run_id lease) (m.others 2 s2).runs ≡ some r)
    × (r.cancel_requested ≡ false)
    × (first (is_run project run_id) s3.runs
        ≡ some (finished_row (m.clock 2) succeeded (some j) none r))
    × (t.runs ≡ (m.others 3 s3).runs)

module _ (m : Machine) (starts : m.time 0 ≤ m.time 1)
    (sleeps : (i : ℕ) → m.time (suc i) + 500000 ≤ m.time (suc (suc i)))
    (keeps : (i : ℕ) (s : Db) → IsSound s → IsSound (m.others i s)) (h : Host)
    (project run_id : String) (t : Db) (view : RunView) (won : view.status ≡ succeeded) where
  -- What `finish` and the checks before it were given, with the files that the subprocess left.
  abbrev g : Host
  g = m.finished h

  Ended : Option String → Db → RunStatus × Option Json → Type 0
  Ended lease s x =
      (x.0 ≡ succeeded)
      × ((j : Json)
          → x.1 ≡ some j
          → (r : Run) × (s3 : Db) × ((m.truth j ≡ false)
              ⊎ ((y : RunManifest) × (g.python.parse j ≡ some y)
                  × Checked g.python g.disk g.root project run_id s y y))
            × (first (is_leased project run_id lease) (m.others 2 s).runs ≡ some r)
            × (r.cancel_requested ≡ false)
            × (first (is_run project run_id) s3.runs
                ≡ some (finished_row (m.clock 2) succeeded (some j) none r))
            × (t.runs ≡ (m.others 3 s3).runs))
