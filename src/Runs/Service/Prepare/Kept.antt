-- ===== src/Runs/Service/Prepare/Kept.antt =====
-- The preparation of a run changes no run and no project.
use buffdata.Prelude.{
  none, some, refl, String, Option, ◌==◌, string_eq, first, Bool-cases, Option-cases, inl, inr,
  if_cases, not, ◌++◌, ◌∷◌,
}
use buffdata.Prelude.Exec.{pure, bind-keeps}
use buffdata.Runs.Tables.{Outside, Db, RunBody, has_project}
use buffdata.Runs.Store.{dataset, project_body, live_dataset}
use buffdata.Runs.Lifecycle.Invariant.{IsSound}
use buffdata.Runs.Lifecycle.Kept.{IsSound-IsKept}
use buffdata.Runs.Service.Resume.{Host, ServiceCall, policy, give, call, dataset_path, text_at}
use buffdata.Security.Paths.{Location}
use buffdata.Runs.Service.Artifacts.{run_directory, hash_path}
use buffdata.Runs.Sessions.{get_or_create_data_key, KeyManager}
use buffdata.Runs.Service.Prepare.{
  prepare, prepared_input, run_key, parent_copied, copy_snapshot, compared, last_part,
}

-- What is read changes no table.
dataset-IsSound :
    (project id : String) (s : Db) → IsSound s → IsSound (call (dataset project id) s).1
unfolding dataset
dataset-IsSound project id s sound =
    elim (Option-cases (first (live_dataset project id) s.datasets)) [
      | inl e ↦ rw (dataset, e) sound
      | inr (r, e) ↦ rw (dataset, e) sound
    ]

pub policy-IsSound : (project : String) (s : Db) → IsSound s → IsSound (policy project s).1
unfolding policy project_body
policy-IsSound project s sound = elim (Option-cases (first (λ r. r.id == project) s.projects)) [
  | inl e ↦ rw (project_body, e) sound
  | inr (r, e) ↦ rw (project_body, e) sound
]

-- Data keys are in a table of their own.
key-IsSound :
    (k : KeyManager) (o : Outside) (project : String) (s : Db)
    → IsSound s
    → IsSound (get_or_create_data_key k o project s).1
unfolding get_or_create_data_key
key-IsSound k o project s sound = elim (Bool-cases (has_project s.projects project)) [
  | inr e ↦ rw e sound
  | inl e ↦ elim (Option-cases (first (λ r. r.project == project) s.project_keys)) [
    | inl f ↦ rw (e, f) (IsSound-IsKept.elsewhere s _ refl refl sound)
    | inr (row, f) ↦ elim (Option-cases (k.unseal row.wrapped_data_key)) [
      | inl u ↦ rw (e, f, u) sound
      | inr (key, u) ↦ rw (e, f, u) sound
    ]
  ]
]

run_key-IsSound :
    (keys : Option KeyManager) (o : Outside) (project : String) (s : Db)
    → IsSound s
    → IsSound (run_key keys o project s).1
run_key-IsSound none o project s sound = sound
run_key-IsSound (some k) o project s sound =
    bind-keeps IsSound (call (get_or_create_data_key k o project)) (λ key. pure (some key)) s
      (key-IsSound k o project s sound) (λ a t h. h)

compared-IsSound :
    (h : Host) (target : Location) (kind : String) (body : RunBody) (s : Db)
    → IsSound s
    → IsSound (compared h target kind body s).1
compared-IsSound h target kind body s sound =
    bind-keeps IsSound (give (hash_path h.python h.disk target)) _ s sound (λ actual t k.
      bind-keeps IsSound (give (text_at kind body.inputs)) _ t k (λ sha256 u l.
        if_cases (λ (c : ServiceCall Unit). IsSound (c u).1) (not (actual == sha256)) _ _ (λ e. l)
          (λ e. l)))

input-IsSound :
    (h : Host) (project : String) (directory : Location) (body : RunBody) (kind : String)
    (id : Option String) (s : Db)
    → IsSound s
    → IsSound (prepared_input h project directory body kind id s).1
unfolding dataset_path
input-IsSound h project directory body kind none s sound = sound
input-IsSound h project directory body kind (some id) s sound =
    if_cases (λ (c : ServiceCall Host). IsSound (c s).1) (id == "") _ _ (λ e. sound)
      (λ e.
        bind-keeps IsSound (dataset_path h project id) _ s
          (bind-keeps IsSound (call (dataset project id)) _ s (dataset-IsSound project id s sound)
            (λ a t k. k))
          (λ source t k.
            bind-keeps IsSound
              (give (copy_snapshot h source (directory ++ kind ∷ last_part source))) _ t k
              (λ copy u l.
                bind-keeps IsSound (compared copy (directory ++ kind ∷ last_part source) kind body)
                  _ u (compared-IsSound copy (directory ++ kind ∷ last_part source) kind body u l)
                  (λ _ w n. n))))

pub prepare-IsSound :
    (h : Host) (keys : Option KeyManager) (o : Outside) (body : RunBody) (s : Db)
    → IsSound s
    → IsSound (prepare h keys o body s).1
unfolding prepare
prepare-IsSound h keys o body s sound =
    bind-keeps IsSound (policy body.spec.project_id) _ s
      (policy-IsSound body.spec.project_id s sound)
      (λ p t1 k1. bind-keeps IsSound (give (h.identity p)) _ t1 k1 (λ identity t2 k2.
        if_cases (λ (c : ServiceCall (Location × Option String)). IsSound (c t2).1)
          (not (h.python.same_json identity body.implementation)) _ _ (λ e. k2)
          (λ e.
            bind-keeps IsSound
              (give (run_directory h.python h.disk h.root body.spec.project_id body.id)) _ t2 k2
              (λ directory t3 k3.
                bind-keeps IsSound
                  (prepared_input h body.spec.project_id directory body "source"
                    (some body.spec.dataset_id))
                  _ t3
                  (input-IsSound h body.spec.project_id directory body "source"
                    (some body.spec.dataset_id) t3 k3)
                  (λ h1 t4 k4.
                    bind-keeps IsSound
                      (prepared_input h1 body.spec.project_id directory body "validation"
                        body.spec.validation_dataset_id)
                      _ t4
                      (input-IsSound h1 body.spec.project_id directory body "validation"
                        body.spec.validation_dataset_id t4 k4)
                      (λ h2 t5 k5.
                        bind-keeps IsSound
                          (give
                            (parent_copied h2 body.spec.project_id directory body.parent_run_id))
                          _ t5 k5
                          (λ _ t6 k6.
                            bind-keeps IsSound (run_key keys o body.spec.project_id) _ t6
                              (run_key-IsSound keys o body.spec.project_id t6 k6)
                              (λ key t7 k7. k7))))))))
