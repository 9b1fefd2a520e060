-- ===== src/Runs/Service/Webhooks/Registered.antt =====
-- The registration of a webhook, and what dispatch reads of it.
use buffdata.Prelude.{
  [], none, some, true, refl, String, Option, List, ◌++◌, ◌≡◌, ◌∷◌, Bool-cases, ◌==◌, inl, inr,
  string_eq, All, ap, map, any, false, ◌&&◌, arith, select, eq_iff, not, ◌∙◌, if_cases,
}
use buffdata.Prelude.Json.{Fields, Json, field, end}
use buffdata.Runs.Service.Webhooks.{
  Hook, strings_of, hook_of, hook_fields, without, items, hooks_of, public_hook, with_hook,
  hook_with, events_known, sorted_events, bodies, add_hook, register_webhook, list_hooks,
  registered,
}
use buffdata.Security.Network.{Url, Net, ExecutionContext, SecurityError, check_network_url}
use buffdata.Runs.Tables.{Db, Outside, Webhook}
use buffdata.Prelude.Exec.{Result, err, ok}
use buffdata.Runs.Service.{ServiceError}
use buffdata.Runs.Sessions.{list_webhooks, add_webhook}
use buffdata.Models.Item.{get_field}

strings_of-items : (xs : List String) → strings_of (items xs) ≡ some xs
strings_of-items [] = refl
strings_of-items (x ∷ xs) = rw (strings_of-items xs) refl

hook_of-hook_fields :
    (h : Hook) (created_at actor : String)
    → hook_of (Json.obj (hook_fields h created_at actor)) ≡ some h
hook_of-hook_fields h created_at actor =
    ap (hook_with h.id h.url h.secret) (strings_of-items h.events)

-- The webhooks that are read, with one more at the end.
abbrev pub add_end : Option (List Hook) → Hook → Option (List Hook)
add_end none h = none
add_end (some hs) h = some (hs ++ h ∷ [])

with_hook-append :
    (o : Option Hook) (js : Option (List Hook)) (h : Hook)
    → with_hook o (add_end js h) ≡ add_end (with_hook o js) h
with_hook-append none js h = refl
with_hook-append (some x) none h = refl
with_hook-append (some x) (some ks) h = refl

hooks_of-append :
    (js : List Json) (j : Json) (h : Hook)
    → hook_of j ≡ some h
    → hooks_of (js ++ j ∷ []) ≡ add_end (hooks_of js) h
hooks_of-append [] j h e = ap (λ o. with_hook o (some [])) e
hooks_of-append (x ∷ js) j h e =
    ap (with_hook (hook_of x)) (hooks_of-append js j h e)
    ∙ with_hook-append (hook_of x) (hooks_of js) h

get_field-without : (key : String) (fs : Fields) → get_field key (without key fs) ≡ none
get_field-without key end = refl
get_field-without key (field k v fs) = elim (Bool-cases (k == key)) [
  | inl e ↦ rw e (get_field-without key fs)
  | inr e ↦ rw (e, get_field, e) (get_field-without key fs)
]

-- No key of an object is the secret.
abbrev pub HidesSecret : Json → Type 0
HidesSecret (Json.obj fs) = get_field "secret" fs ≡ none
HidesSecret j = Unit

public_hook-HidesSecret : (j : Json) → HidesSecret (public_hook j)
public_hook-HidesSecret (Json.obj fs) = get_field-without "secret" fs
public_hook-HidesSecret Json.null = tt
public_hook-HidesSecret (Json.bool b) = tt
public_hook-HidesSecret (Json.num n) = tt
public_hook-HidesSecret (Json.str x) = tt
public_hook-HidesSecret (Json.arr xs) = tt

public_hooks-HidesSecret : (js : List Json) → All HidesSecret (map public_hook js)
public_hooks-HidesSecret [] = tt
public_hooks-HidesSecret (j ∷ js) = (public_hook-HidesSecret j, public_hooks-HidesSecret js)

-- What a registration leads to: a refusal that changes nothing, or one more webhook.
abbrev pub Registers :
    String → Hook → Url → List String → Db → Result ServiceError Json × Db → Type 0
Registers project h parts events s (err e, s') = s' ≡ s
Registers project h parts events s (ok body, s') =
    (parts.scheme ≡ "https")
    × (events_known events ≡ true)
    × (hook_of body ≡ some h)
    × (hooks_of (bodies (list_webhooks project s').0)
        ≡ add_end (hooks_of (bodies (list_webhooks project s).0)) h)

abbrev live_bodies : String → List Webhook → List Json
live_bodies project ws =
    map (λ w. w.body) (select (λ w. (w.project == project) && not w.deleted) ws)

live_bodies-append :
    (project : String) (ws : List Webhook) (w : Webhook)
    → (w.project == project) && not w.deleted ≡ true
    → live_bodies project (ws ++ w ∷ []) ≡ live_bodies project ws ++ w.body ∷ []
live_bodies-append project [] w h = rw h refl
live_bodies-append project (x ∷ ws) w h =
    elim (Bool-cases ((x.project == project) && not x.deleted)) [
      | inl e ↦ rw e (ap (λ rest. x.body ∷ rest) (live_bodies-append project ws w h))
      | inr e ↦ rw e (live_bodies-append project ws w h)
    ]

abbrev row : String → Hook → Json → Webhook
row project h body = record { id = h.id; project = project; body = body; deleted = false }

module _ (o : Outside) (project url actor : String) (parts : Url) (h : Hook) (events : List String)
    (s : Db) where
  add_hook-Registers :
      parts.scheme ≡ "https"
      → events_known events ≡ true
      → Registers project h parts events s (add_hook o project url actor h s)
  unfolding add_webhook list_webhooks
  add_hook-Registers secure known =
      let body = Json.obj (hook_fields h o.iso actor) in
      elim (Bool-cases (any (λ w. w.id == h.id) s.webhooks)) [
        | inl e ↦ rw (add_webhook, e) refl
        | inr e ↦
            rw (add_webhook, e)
              (
                secure,
                known,
                hook_of-hook_fields h o.iso actor,
                ap hooks_of (
                      live_bodies-append project s.webhooks (row project h body)
                        (ground (arith, eq_iff project project)))
                    ∙ hooks_of-append (live_bodies project s.webhooks) body h
                        (hook_of-hook_fields h o.iso actor),
              )
      ]

registered-Registers :
    (o : Outside) (project url actor : String) (parts : Url) (id secret : String)
    (events : List String) (s : Db)
    → parts.scheme ≡ "https"
    → (r : Result SecurityError (List String))
    → Registers project
        (record { id = id; url = url; events = sorted_events events; secret = secret })
        parts
        events
        s
        (registered o project url events actor id secret s r)
registered-Registers o project url actor parts id secret events s secure (err e) = refl
registered-Registers o project url actor parts id secret events s secure (ok ips) =
    let h : Hook = record { id = id; url = url; events = sorted_events events; secret = secret } in
    if_cases (Registers project h parts events s) (not (events_known events)) _ _ (λ e. refl)
      (λ e. add_hook-Registers o project url actor parts h events s secure (ground (arith, e)))

-- A webhook is registered only at an HTTPS address, for events of which there is one at least and each
-- is known. Then dispatch reads one webhook more, with the identifier, the address and the secret of
-- the registration and the sorted events; a refusal leaves the tables as they were. Whatever is
-- stored, the list of the webhooks of a project shows no secret.
pub register_webhook-Registers :
    (net : Net) (ctx : Option ExecutionContext) (o : Outside) (project url : String) (parts : Url)
    (events : List String) (actor id secret : String) (s : Db)
    → Registers project
        (record { id = id; url = url; events = sorted_events events; secret = secret })
        parts
        events
        s
        (register_webhook net ctx o project url parts events actor id secret s)
      × All HidesSecret (bodies (list_hooks project s).0)
unfolding register_webhook list_hooks list_webhooks
register_webhook-Registers net ctx o project url parts events actor id secret s = (
  if_cases
      (Registers project
        (record { id = id; url = url; events = sorted_events events; secret = secret }) parts events
        s)
      (not (parts.scheme == "https")) _ _ (λ e. refl)
      (λ e.
        registered-Registers o project url actor parts id secret events s
          ((eq_iff parts.scheme "https").0 (ground (arith, e)))
          (check_network_url net ctx true false parts)),
  public_hooks-HidesSecret (live_bodies project s.webhooks),
)
