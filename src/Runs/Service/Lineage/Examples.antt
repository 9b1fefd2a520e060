-- ===== src/Runs/Service/Lineage/Examples.antt =====
-- Tests of the lineage of runs whose parent links have a cycle.
use buffdata.Prelude.{[], none, some, false, refl, String, List, Option, ◌∷◌, ◌≡◌, map}
use buffdata.Runs.Store.{get, RunView, run_view}
use buffdata.Runs.Models.{RunSpec, RunStatus, key_error}
use buffdata.Runs.Tables.{Db, Run}
use buffdata.Runs.Service.Lineage.{ancestors, descendants, lineage}
use buffdata.Prelude.Json.{Json}
use buffdata.Prelude.Exec.{err}
use buffdata.Runs.Service.Lineage.Complete.{LineageSays, lineage-LineageSays}

abbrev pub spec : RunSpec
spec = record {
  project_id = "p";
  dataset_id = "d";
  configuration = Json.null;
  output_format = "jsonl";
  validation_dataset_id = none;
  require_positive_gain = false;
  accuracy_seeds = 42 ∷ [];
  accuracy_epochs = 1;
  accuracy_min_gain = "0.0";
  accuracy_max_train_rows = 100;
}

abbrev pub run_with : String → Option String → Run
run_with id parent = record {
  id = id;
  project = "p";
  actor = "ann";
  status = RunStatus.failed;
  created = 1;
  body = record {
    id = id;
    spec = spec;
    created_at = "";
    implementation = Json.null;
    inputs = Json.null;
    parent_run_id = parent;
    manifest = none;
    completed_at = none;
    error = none;
  };
  idempotency = id;
  request_hash = "";
  lease = none;
  heartbeat = none;
  cancel_requested = false;
}

-- a and b are parents of each other, c and d descend from a, and e has a parent that is not there.
abbrev pub cycle : Db
cycle = record {
  projects = [];
  datasets = [];
  runs =
      run_with "a" (some "b")
      ∷ run_with "b" (some "a")
      ∷ run_with "c" (some "a")
      ∷ run_with "d" (some "c")
      ∷ run_with "e" (some "x")
      ∷ [];
  events = [];
  sessions = [];
  webhooks = [];
  project_keys = [];
}

abbrev recent : List RunView
recent = map run_view cycle.runs

ids_found : descendants recent "a" ≡ some ("b" ∷ "c" ∷ "d" ∷ [])
unfolding descendants
ids_found = refl

parent_missing : ancestors "p" "e" cycle ≡ some (err (key_error "Run not found"))
unfolding ancestors get
parent_missing = refl

lineage-LineageSays_example : LineageSays "p" "d" cycle (lineage "p" "d" cycle)
lineage-LineageSays_example = lineage-LineageSays "p" "d" cycle
