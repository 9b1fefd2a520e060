-- ===== src/Runs/Service/Webhooks.antt =====
-- buffdata/runs/service.py: the webhooks of a project, and the messages that they are sent when a run
-- ends.
pub mod Dispatch
pub mod Quiet
pub mod Registered
pub mod Examples
use Prim.Native.String.{◌++◌ as append}
use buffdata.Prelude.{
  [], none, some, true, false, zero, suc, refl, ℕ, String, Bool, Option, List, ◌+◌, not, map,
  select, ◌∷◌, leb, contains, if◌then◌else◌, ◌++◌, is_empty, ◌&&◌, ◌==◌, ltb, string_eq, all,
}
use buffdata.Prelude.Exec.{Result, ◌>>=◌, err, pure, ok}
use buffdata.Runs.Store.{Action, text_field}
use buffdata.Runs.Tables.{Db, Outside}
use buffdata.Prelude.Json.{Fields, Items, Json, cons, nil, field, end}
use buffdata.Security.Network.{Net, ExecutionContext, Url, check_network_url, SecurityError}
use buffdata.Runs.Models.{StoreError}
use buffdata.Runs.Sessions.{record_event, list_webhooks, add_webhook}
use buffdata.Runs.Service.{ServiceError, found, value_error, of_network, stored}
use buffdata.Models.Item.{get_field, without}

abbrev pub public_hook : Json → Json
public_hook (Json.obj fs) = Json.obj (without "secret" fs)
public_hook j = j

-- `list_webhooks`
unfoldable pub list_hooks : String → Action (List Json)
list_hooks project = do hooks ← list_webhooks project; pure (map public_hook hooks)

abbrev pub items : List String → Items
items [] = nil
items (x ∷ xs) = cons (Json.str x) (items xs)

-- `sorted(WEBHOOK_EVENTS)`
abbrev pub webhook_events : List String
webhook_events = "run.cancelled" ∷ "run.failed" ∷ "run.interrupted" ∷ "run.succeeded" ∷ []

-- What is stored of a webhook.
pub record Hook : Type 0 where
  pub id : String
  pub url : String
  pub events : List String
  pub secret : String

abbrev pub hook_fields : Hook → String → String → Fields
hook_fields h created_at actor = field "id" (Json.str h.id) (
    field "url" (Json.str h.url) (
      field "events" (Json.arr (items h.events)) (
        field "secret" (Json.str h.secret)
          (field "created_at" (Json.str created_at) (field "created_by" (Json.str actor) end)))))

-- `sorted(set(events))` of events that are all known.
abbrev pub sorted_events : List String → List String
sorted_events events = select (λ e. contains e events) webhook_events

abbrev pub events_known : List String → Bool
events_known events = not (is_empty events) && all (λ e. contains e webhook_events) events

-- The end of `register_webhook`; the parts of the URL, the two random tokens and the context are arguments.
abbrev pub add_hook : Outside → String → String → String → Hook → Db → Result ServiceError Json × Db
add_hook o project url actor h s =
    stored (add_webhook o project h.id (Json.obj (hook_fields h o.iso actor)) s)

abbrev pub registered :
    Outside
    → String
    → String
    → List String
    → String
    → String
    → String
    → Db
    → Result SecurityError (List String)
    → Result ServiceError Json × Db
registered o project url events actor id secret s (err e) = (err (of_network e), s)
registered o project url events actor id secret s (ok ips) =
    if not (events_known events)
    then (err (value_error "Unknown webhook event"), s)
    else add_hook o project url actor
        (record { id = id; url = url; events = sorted_events events; secret = secret }) s

unfoldable pub register_webhook :
    Net
    → Option ExecutionContext
    → Outside
    → String
    → String
    → Url
    → List String
    → String
    → String
    → String
    → Db
    → Result ServiceError Json × Db
register_webhook net ctx o project url parts events actor id secret s =
    if not (parts.scheme == "https")
    then (err (value_error "Webhook endpoints must use HTTPS"), s)
    else registered o project url events actor id secret s
        (check_network_url net ctx true false parts)

-- How a request for a message ends: a status, or the name of what was raised.
pub data Reply : Type 0 where
  status : ℕ → Reply
  raised : String → Reply

pub record Post : Type 0 where
  pub url : String
  pub body : String
  pub event : String
  pub signature : String

-- The messages' surroundings: the reply to an attempt, HMAC-SHA256, the decimal digits of a number and
-- the clock when the outcome for a webhook is recorded.
pub record Wire : Type 0 where
  pub send : Post → ℕ → Reply
  pub hmac : String → String → String
  pub digits : ℕ → String
  pub clock : String → Outside

pub data Delivery : Type 0 where
  delivered : Delivery
  exhausted : String → Delivery

-- `200 <= response.status_code < 300`
abbrev pub is_success : Reply → Bool
is_success (status n) = leb 200 n && ltb n 300
is_success (raised e) = false

abbrev pub error_of : Wire → Reply → String
error_of w (status n) = append "HTTP " (w.digits n)
error_of w (raised e) = e

-- The loop over the attempts that are left: how it ends, and what it has sent.
abbrev pub attempts : Wire → Post → ℕ → ℕ → String → Delivery × List Post
attempts w post zero n last_error = (exhausted last_error, [])
attempts w post (suc left) n last_error =
    let reply = w.send post n in
    let rest = attempts w post left (n + 1) (error_of w reply) in
    if is_success reply then (delivered, post ∷ []) else (rest.0, post ∷ rest.1)

abbrev pub post_to : Wire → String → String → Hook → Post
post_to w event payload h = record {
  url = h.url;
  body = payload;
  event = event;
  signature = append "sha256=" (w.hmac h.secret payload);
}

abbrev pub outcome_kind : Delivery → String
outcome_kind delivered = "webhook.delivered"
outcome_kind (exhausted e) = "webhook.delivery_failed"

abbrev pub outcome_body : Hook → Delivery → Json
outcome_body h delivered = Json.obj (field "webhook_id" (Json.str h.id) end)
outcome_body h (exhausted e) =
    Json.obj (field "webhook_id" (Json.str h.id) (field "error" (Json.str e) end))

abbrev pub deliver : Wire → String → String → Hook → Delivery × List Post
deliver w event payload h = attempts w (post_to w event payload h) 3 0 "no delivery attempt"

abbrev pub report :
    Wire → String → String → Hook → Delivery × List Post → Db × List Post → Db × List Post
report w project run_id h (d, posts) (s, sent) = (
  (record_event (w.clock h.id) project (some run_id) (outcome_kind d) (outcome_body h d) s).1,
  sent ++ posts,
)

-- The loop over the webhooks, on the tables and on what was sent before.
unfoldable pub dispatch_each :
    Wire → String → String → String → String → List Hook → Db × List Post → Db × List Post
dispatch_each w project run_id event payload [] s = s
dispatch_each w project run_id event payload (h ∷ hooks) s =
    dispatch_each w project run_id event payload hooks (
      if not (contains event h.events)
      then s
      else report w project run_id h (deliver w event payload h) s)

abbrev pub with_string : String → Option (List String) → Option (List String)
with_string x none = none
with_string x (some xs) = some (x ∷ xs)

abbrev pub strings_of : Items → Option (List String)
strings_of nil = some []
strings_of (cons (Json.str x) xs) = with_string x (strings_of xs)
strings_of (cons j xs) = none

abbrev pub hook_with : String → String → String → Option (List String) → Option Hook
hook_with id url secret none = none
hook_with id url secret (some events) =
    some (record { id = id; url = url; events = events; secret = secret })

abbrev pub hook_parts : Option Json → Option Json → Option Json → Option Json → Option Hook
hook_parts (some (Json.str id)) (some (Json.str url)) (some (Json.arr events))
      (some (Json.str secret)) =
    hook_with id url secret (strings_of events)
hook_parts _ _ _ _ = none

abbrev pub hook_of : Json → Option Hook
hook_of (Json.obj fs) =
    hook_parts (get_field "id" fs) (get_field "url" fs) (get_field "events" fs)
      (get_field "secret" fs)
hook_of j = none

abbrev pub with_hook : Option Hook → Option (List Hook) → Option (List Hook)
with_hook none hs = none
with_hook (some h) none = none
with_hook (some h) (some hs) = some (h ∷ hs)

-- The stored webhooks; a body of another form would raise.
abbrev pub hooks_of : List Json → Option (List Hook)
hooks_of [] = some []
hooks_of (j ∷ js) = with_hook (hook_of j) (hooks_of js)

abbrev pub bodies : Result StoreError (List Json) → List Json
bodies (err e) = []
bodies (ok js) = js

abbrev pub dispatched_to :
    Wire → String → String → String → String → Db → Option (List Hook) → Option (Db × List Post)
dispatched_to w project run_id ending payload s none = none
dispatched_to w project run_id ending payload s (some hooks) =
    some (dispatch_each w project run_id (append "run." ending) payload hooks (s, []))

-- `dispatch_webhooks`; `payload` is the canonical text of the message. None: a body has another form.
unfoldable pub dispatch_webhooks :
    Wire → String → String → String → String → Db → Option (Db × List Post)
dispatch_webhooks w project run_id ending payload s =
    dispatched_to w project run_id ending payload s (hooks_of (bodies (list_webhooks project s).0))
