-- ===== src/Runs/Service/Webhooks/Examples.antt =====
-- Tests of a webhook whose endpoint answers at the second attempt.
use buffdata.Prelude.{
  [], none, some, true, false, refl, String, List, if◌then◌else◌, ◌∷◌, ◌==◌, ◌≡◌, All, string_eq,
  nat_eq,
}
use Prim.Native.String.{◌++◌ as append}
use buffdata.Runs.Service.Lineage.Examples.{cycle}
use buffdata.Runs.Service.Webhooks.Registered.{Registers, HidesSecret, register_webhook-Registers}
use buffdata.Security.Network.{Url, Net}
use buffdata.Runs.Service.Webhooks.{
  Hook, Wire, dispatch_webhooks, register_webhook, raised, hook_fields, status, bodies, list_hooks,
}
use buffdata.Runs.Tables.{Outside, Db, Webhook}
use buffdata.Runs.Sessions.{list_webhooks}
use buffdata.Prelude.Json.{Json}
use buffdata.Runs.Service.Webhooks.Dispatch.{dispatched, dispatch_webhooks_lem}

abbrev pub wire : Wire
wire = record {
  send = λ p n.
      if p.url == "https://down"
      then raised "ConnectError"
      else (if n == 0 then status 503 else status 204);
  hmac = λ k m. append k m;
  digits = λ n. "503";
  clock = λ id. record { now = 1; event_time = 2; iso = ""; token = "" };
}

abbrev hook_at : String → String → Hook
hook_at id url = record {
  id = id;
  url = url;
  events = "run.failed" ∷ "run.succeeded" ∷ [];
  secret = "k";
}

abbrev stored_hook : Hook → Webhook
stored_hook h = record {
  id = h.id;
  project = "p";
  body = Json.obj (hook_fields h "" "ann");
  deleted = false;
}

abbrev two_hooks : Db
two_hooks = record cycle {
  webhooks =
      stored_hook (hook_at "w1" "https://up") ∷ stored_hook (hook_at "w2" "https://down") ∷ [];
}

abbrev both : List Hook
both = hook_at "w1" "https://up" ∷ hook_at "w2" "https://down" ∷ []

abbrev public_net : Net
public_net = record {
  lower = λ s. s;
  strip_dots = λ s. s;
  ip_address = λ s. none;
  getaddrinfo = λ host port. some ("8.8.8.8" ∷ []);
  is_global = λ ip. true;
}

abbrev new_hook : Hook
new_hook = record { id = "w3"; url = "https://x"; events = "run.failed" ∷ []; secret = "s" }

abbrev parts : Url
parts = record {
  scheme = "https";
  hostname = some "x";
  port = none;
  username = none;
  password = none;
}

abbrev now : Outside
now = record { now = 1; event_time = 2; iso = ""; token = "" }

dispatch_webhooks_lem_example :
    dispatch_webhooks wire "p" "r" "failed" "{}" two_hooks
    ≡ some (dispatched wire "p" "r" "run.failed" "{}" both (two_hooks, []))
unfolding list_webhooks
dispatch_webhooks_lem_example = dispatch_webhooks_lem wire "p" "r" "failed" "{}" two_hooks both refl

register_webhook-Registers_example :
    Registers "p" new_hook parts ("run.failed" ∷ []) two_hooks (
      register_webhook public_net none now "p" "https://x" parts
        ("run.failed" ∷ [])
        "ann"
        "w3"
        "s"
        two_hooks)
    × All HidesSecret (bodies (list_hooks "p" two_hooks).0)
register_webhook-Registers_example =
    register_webhook-Registers public_net none now "p" "https://x" parts ("run.failed" ∷ []) "ann"
      "w3" "s" two_hooks
