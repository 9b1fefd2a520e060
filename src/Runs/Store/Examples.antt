-- ===== src/Runs/Store/Examples.antt =====
-- Tests of the deletion of a dataset.
use buffdata.Prelude.{ℕ, ◌≡◌, none, ◌∷◌, [], false, refl}
use buffdata.Runs.Tables.{Outside, Db}
use buffdata.Runs.Store.{delete_dataset, dataset}
use buffdata.Prelude.Json.{Json}
use buffdata.Prelude.Exec.{ok, err}
use buffdata.Runs.Models.{key_error}
use buffdata.Runs.Store.Deletion.{delete_dataset_lem}

abbrev at : ℕ → Outside
at n = record { now = n; event_time = n; iso = "2026-01-01T00:00:00Z"; token = "" }

abbrev tables : Db
tables = record {
  projects = record { id = "p"; body = Json.null; active_run = none } ∷ [];
  datasets = record { id = "d"; project = "p"; body = Json.null; deleted = false } ∷ [];
  runs = [];
  events = [];
  sessions = [];
  webhooks = [];
  project_keys = [];
}

delete_dataset_lem_example :
    ((delete_dataset (at 1) "p" "d" "ann" tables).0 ≡ ok tt)
    × ((dataset "p" "d" (delete_dataset (at 1) "p" "d" "ann" tables).1).0
        ≡ err (key_error "Dataset not found"))
delete_dataset_lem_example = delete_dataset_lem (at 1) "p" "d" "ann" tables refl
