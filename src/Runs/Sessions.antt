-- ===== src/Runs/Sessions.antt =====
-- buffdata/runs/store.py: the tables beside the runs, which are project data keys, webhooks and login
-- sessions, and the events that other code records.
pub mod Promises
pub mod Examples
use buffdata.Prelude.{
  ℕ, ◌+◌, String, Option, List, Bool, if◌then◌else◌, first, any, map, select, ◌==◌, ◌&&◌, not,
  string_eq, ◌++◌, some, leb, ◌∷◌, none, update, [], false, true,
}
use buffdata.Runs.Tables.{Outside, Session, lock_project}
use buffdata.Runs.Store.{Action, event, text_field, no_body}
use buffdata.Prelude.Exec.{raise, rollback_on_raise, gets, modify, pure, ◌>>◌}
use buffdata.Prelude.Json.{Json, Fields}
use buffdata.Runs.Models.{decrypt_error, integrity_error, key_error}

-- What `get_or_create_data_key` is given: `base64.b64encode(key_manager.wrap(k))` and its inverse,
-- which raises where the stored text was not made with this master key.
pub record KeyManager : Type 0 where
  pub seal : String → String
  pub unseal : String → Option String

-- `record_event`
unfoldable pub record_event : Outside → String → Option String → String → Json → Action Unit
record_event o project run_id kind body =
    rollback_on_raise (modify (event o project kind body run_id))

abbrev pub opened : Option String → Action String
opened none = raise decrypt_error
opened (some key) = pure key

-- `get_or_create_data_key`
unfoldable pub get_or_create_data_key : KeyManager → Outside → String → Action String
get_or_create_data_key k o project = rollback_on_raise do
  lock_project project
  λ s. elim (first (λ r. r.project == project) s.project_keys) [
    | some row ↦ opened (k.unseal row.wrapped_data_key) s
    | none ↦ pure o.token (
        event o project "project.data_key_created" no_body none (record s {
          project_keys =
              s.project_keys
              ++ record { project = project; wrapped_data_key = k.seal o.token } ∷ [];
        }))
  ]

-- `add_webhook`
unfoldable pub add_webhook : Outside → String → String → Json → Action Json
add_webhook o project id body = rollback_on_raise λ s.
    if any (λ w. w.id == id) s.webhooks
    then raise integrity_error s
    else pure body (
        event o project "webhook.registered" (text_field "webhook_id" id) none (record s {
          webhooks =
              s.webhooks
              ++ record { id = id; project = project; body = body; deleted = false } ∷ [];
        }))

-- `list_webhooks`
unfoldable pub list_webhooks : String → Action (List Json)
list_webhooks project =
    gets λ s. map (λ w. w.body) (select (λ w. (w.project == project) && not w.deleted) s.webhooks)

-- `delete_webhook`
unfoldable pub delete_webhook : Outside → String → String → String → Action Unit
delete_webhook o project id actor = rollback_on_raise λ s.
    if any (λ w. (w.project == project) && (w.id == id) && not w.deleted) s.webhooks
    then modify
        (λ d.
          event o project "webhook.deleted"
            (Json.obj (
              Fields.field "webhook_id" (Json.str id)
                (Fields.field "actor" (Json.str actor) Fields.end)))
            none
            (record d {
              webhooks =
                  update (λ w. (w.project == project) && (w.id == id))
                    (λ w. record w { deleted = true }) d.webhooks;
            }))
        s
    else raise (key_error "Webhook not found") s

-- `save_session`; `hash` is the SHA-256 digest in hexadecimal, and the lifetime is in microseconds.
unfoldable pub save_session : (String → String) → Outside → String → Json → ℕ → Action Unit
save_session hash o token body lifetime = rollback_on_raise λ s.
    if any (λ r. r.id == hash token) s.sessions
    then raise integrity_error s
    else modify
        (λ d. record d {
          sessions =
              d.sessions
              ++ record { id = hash token; expires = o.now + lifetime; body = body } ∷ [];
        })
        s

abbrev pub live_session : ℕ → Option Session → Option Json
live_session now none = none
live_session now (some r) = if leb r.expires now then none else some r.body

-- `session`
unfoldable pub session : (String → String) → Outside → String → Bool → Action (Option Json)
session hash o token consume = rollback_on_raise λ s.
    pure (live_session o.now (first (λ r. r.id == hash token) s.sessions)) (
      if consume
      then record s { sessions = select (λ r. not (r.id == hash token)) s.sessions }
      else s)
