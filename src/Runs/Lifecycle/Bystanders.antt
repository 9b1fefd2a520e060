-- ===== src/Runs/Lifecycle/Bystanders.antt =====
-- The operations that write neither the runs nor the projects' active runs keep the tables sound.
use buffdata.Prelude.{
  ℕ, String, Option, Bool, Bool-cases, update, refl, any, inl, Option-cases, ◌==◌, inr, ◌++◌, first,
  string_eq, ◌&&◌, not, none, ◌∷◌, [], true, false,
}
use buffdata.Runs.Store.{update_project, ensure_project, delete_dataset, add_dataset, references}
use buffdata.Runs.Sessions.{
  get_or_create_data_key, record_event, delete_webhook, save_session, add_webhook, KeyManager,
  session, opened,
}
use buffdata.Runs.Tables.{Outside, ProjectKey, Db, has_project}
use buffdata.Prelude.Json.{Json}
use buffdata.Prelude.Exec.{rollback_on_raise}
use buffdata.Runs.Lifecycle.Kept.{IsKept}

-- For any predicate that the writes keep.
module _ (P : Db → Type 0) (kept : IsKept P) where
  pub ensure_project-keeps :
      (o : Outside) (p : String) (b : Json) (d : Db) → P d → P (ensure_project o p b d).1
  unfolding ensure_project
  ensure_project-keeps o p b d h = elim (Bool-cases (has_project d.projects p)) [
    | inl old ↦ rw old h
    | inr new ↦ rw new (
        kept.elsewhere
          (record d {
            projects = d.projects ++ record { id = p; body = b; active_run = none } ∷ [];
          })
          _ refl refl (kept.ensure p b d h))
  ]

  pub update_project-keeps :
      (o : Outside) (p : String) (b : Json) (a : String) (d : Db)
      → P d
      → P (update_project o p b a d).1
  unfolding update_project
  update_project-keeps o p b a d h =
      kept.elsewhere
        (record d { projects = update (λ r. r.id == p) (λ r. record r { body = b }) d.projects }) _
        refl refl (kept.configure p b d h)

  pub add_dataset-keeps :
      (o : Outside) (p i : String) (b : Json) (d : Db) → P d → P (add_dataset o p i b d).1
  unfolding add_dataset
  add_dataset-keeps o p i b d h = elim (Bool-cases (any (λ r. r.id == i) d.datasets)) [
    | inl old ↦ rw old h
    | inr new ↦ rw new (kept.elsewhere d _ refl refl h)
  ]

  pub delete_dataset-keeps :
      (o : Outside) (p i a : String) (d : Db) → P d → P (delete_dataset o p i a d).1
  unfolding delete_dataset
  delete_dataset-keeps o p i a d h = elim (Bool-cases (has_project d.projects p)) [
    | inr missing ↦ rw missing h
    | inl has ↦ elim (Bool-cases (any (λ r. (r.project == p) && references i r.body.spec) d.runs)) [
      | inl used ↦ rw (has, used) h
      | inr free ↦ rw (has, free) (kept.elsewhere d _ refl refl h)
    ]
  ]

  pub record_event-keeps :
      (o : Outside) (p : String) (i : Option String) (k : String) (b : Json) (d : Db)
      → P d
      → P (record_event o p i k b d).1
  unfolding record_event
  record_event-keeps o p i k b d h = kept.elsewhere d _ refl refl h

  pub add_webhook-keeps :
      (o : Outside) (p i : String) (b : Json) (d : Db) → P d → P (add_webhook o p i b d).1
  unfolding add_webhook
  add_webhook-keeps o p i b d h = elim (Bool-cases (any (λ w. w.id == i) d.webhooks)) [
    | inl old ↦ rw old h
    | inr new ↦ rw new (kept.elsewhere d _ refl refl h)
  ]

  pub delete_webhook-keeps :
      (o : Outside) (p i a : String) (d : Db) → P d → P (delete_webhook o p i a d).1
  unfolding delete_webhook
  delete_webhook-keeps o p i a d h =
      elim (Bool-cases (any (λ w. (w.project == p) && (w.id == i) && not w.deleted) d.webhooks)) [
        | inl there ↦ rw there (kept.elsewhere d _ refl refl h)
        | inr gone ↦ rw gone h
      ]

  pub save_session-keeps :
      (g : String → String) (o : Outside) (t : String) (b : Json) (l : ℕ) (d : Db)
      → P d
      → P (save_session g o t b l d).1
  unfolding save_session
  save_session-keeps g o t b l d h = elim (Bool-cases (any (λ r. r.id == g t) d.sessions)) [
    | inl old ↦ rw old h
    | inr new ↦ rw new (kept.elsewhere d _ refl refl h)
  ]

  pub session-keeps :
      (g : String → String) (o : Outside) (t : String) (c : Bool) (d : Db)
      → P d
      → P (session g o t c d).1
  unfolding session
  session-keeps g o t true d h = kept.elsewhere d _ refl refl h
  session-keeps g o t false d h = h

  opened_row :
      (k : KeyManager) (row : ProjectKey) (d : Db)
      → P d
      → P (rollback_on_raise (opened (k.unseal row.wrapped_data_key)) d).1
  opened_row k row d h = elim (Option-cases (k.unseal row.wrapped_data_key)) [
    | inl broken ↦ rw broken h
    | inr (key, e) ↦ rw e h
  ]

  pub get_or_create_data_key-keeps :
      (k : KeyManager) (o : Outside) (p : String) (d : Db)
      → P d
      → P (get_or_create_data_key k o p d).1
  unfolding get_or_create_data_key
  get_or_create_data_key-keeps k o p d h = elim (Bool-cases (has_project d.projects p)) [
    | inr missing ↦ rw missing h
    | inl has ↦ elim (Option-cases (first (λ r. r.project == p) d.project_keys)) [
      | inl none_found ↦ rw (has, none_found) (kept.elsewhere d _ refl refl h)
      | inr (row, found) ↦ rw (has, found) (opened_row k row d h)
    ]
  ]
