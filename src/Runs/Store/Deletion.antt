-- ===== src/Runs/Store/Deletion.antt =====
-- The deletion of a dataset.
use buffdata.Prelude.{
  refl, String, List, first, update, ◌≡◌, ◌==◌, true, ◌&&◌, none, if◌then◌else◌, first-update-none,
  any, arith, string_eq, Bool-cases, inl, inr,
}
use buffdata.Runs.Store.{delete_dataset, dataset, live_dataset, references}
use buffdata.Runs.Tables.{Dataset, Outside, Db, has_project}
use buffdata.Prelude.Exec.{err, ok}
use buffdata.Runs.Models.{run_conflict, key_error}

none_live :
    (project id : String) (rows : List Dataset)
    → first (live_dataset project id) (
        update
          (λ r. (r.project == project) && (r.id == id))
          (λ r. record r { deleted = true })
          rows)
      ≡ none
none_live project id rows =
    first-update-none (live_dataset project id) (λ r. (r.project == project) && (r.id == id))
      (λ r. record r { deleted = true }) rows (λ x h. ground (arith, h)) (λ x h. ground (arith, h))

-- In an existing project, the deletion of a dataset that a run of the project refers to is a conflict
-- and changes no table. Otherwise it succeeds, and the dataset is not found right after it.
pub delete_dataset_lem :
    (o : Outside) (project id actor : String) (d : Db)
    → has_project d.projects project ≡ true
    → if any (λ r. (r.project == project) && references id r.body.spec) d.runs
      then delete_dataset o project id actor d
        ≡ (err (run_conflict "Dataset is referenced by run history"), d)
      else ((delete_dataset o project id actor d).0 ≡ ok tt)
        × ((dataset project id (delete_dataset o project id actor d).1).0
            ≡ err (key_error "Dataset not found"))
unfolding delete_dataset dataset
delete_dataset_lem o project id actor d has =
    elim (Bool-cases (any (λ r. (r.project == project) && references id r.body.spec) d.runs)) [
      | inl e ↦ rw (has, e) refl
      | inr e ↦ rw (has, e) (refl, rw (none_live project id d.datasets) refl)
    ]
