-- ===== src/Runs/Service/Resume/Examples.antt =====
-- Tests of a run that failed and is resumed.
use buffdata.Prelude.{[], none, some, false, ℕ, ◌∷◌, string_eq}
use buffdata.Runs.Service.Lineage.Examples.{run_with, cycle}
use buffdata.Runs.Service.Artifacts.Examples.{disk, python}
use buffdata.Runs.Service.Resume.{Host, resume}
use buffdata.Prelude.Exec.{Result, ok}
use buffdata.Runs.Tables.{Outside, Db}
use buffdata.Runs.Store.{RunView, run_view}
use buffdata.Runs.Service.{ServiceError}
use buffdata.Prelude.Json.{Json, field, end}
use buffdata.Runs.Models.{RunStatus}
use buffdata.Runs.Service.Resume.Restarted.{Restarted}

abbrev pub host : Host
host = record {
  digests = record { of_spec = λ s. s.dataset_id; of_key = λ p a k. k };
  python = python "h1";
  disk = disk;
  identity = λ p. ok Json.null;
  file_policy = λ p. record {
    read_roots = [];
    write_roots = [];
    max_upload_bytes = 100;
    max_expanded_bytes = 100;
    max_record_bytes = 100;
  };
  defaults = record {
    read_roots = [];
    write_roots = [];
    max_upload_bytes = 1;
    max_expanded_bytes = 1;
    max_record_bytes = 1;
  };
  path_parts = λ s. s ∷ [];
  root = "srv" ∷ [];
  copied = λ py d source target. (py.read, d);
}

abbrev failed_once : Db
failed_once = record cycle {
  projects = record { id = "p"; body = Json.null; active_run = none } ∷ [];
  datasets =
      record {
        id = "d";
        project = "p";
        body = Json.obj (field "path" (Json.str "d.jsonl") (field "sha256" (Json.str "h1") end));
        deleted = false;
      }
      ∷ [];
  runs = run_with "0" none ∷ [];
}

abbrev at : ℕ → Outside
at n = record { now = n; event_time = n; iso = ""; token = "1" }

abbrev after : Result ServiceError RunView × Db
after = resume host (at 1) (at 2) (at 3) "p" "0" "ann" "key" failed_once

abbrev resumed_view : RunView
resumed_view = run_view (record (run_with "1" (some "0")) {
  status = RunStatus.queued;
  body = record (run_with "1" (some "0")).body {
    inputs = Json.obj (field "source" (Json.str "h1") end);
  };
})
