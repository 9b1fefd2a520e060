-- ===== src/Runs/Service/Webhooks/Quiet.antt =====
-- The messages of webhooks change no run and no project.
use buffdata.Prelude.{
  [], none, some, refl, String, Option, List, ◌∷◌, ◌≡◌, not, contains, if_cases, string_eq,
  none-ne-some, some-inj,
}
use Prim.Native.String.{◌++◌ as append}
use buffdata.Runs.Tables.{Db}
use buffdata.Runs.Service.Webhooks.{
  Wire, Post, Hook, dispatch_each, dispatched_to, dispatch_webhooks, hooks_of, bodies, report,
  deliver,
}
use buffdata.Runs.Sessions.{record_event, list_webhooks}
use mathlib.Core.Path.{subst}

-- The tables of runs and projects are the same.
abbrev pub Same : Db → Db → Type 0
Same s t = (t.runs ≡ s.runs) × (t.projects ≡ s.projects)

each-Same :
    (w : Wire) (project run_id event payload : String) (hooks : List Hook) (d : Db)
    (s : Db × List Post)
    → Same d s.0
    → Same d (dispatch_each w project run_id event payload hooks s).0
unfolding dispatch_each record_event
each-Same w project run_id event payload [] d s h = h
each-Same w project run_id event payload (x ∷ hooks) d s h =
    each-Same w project run_id event payload hooks d _ (
      if_cases (λ (y : Db × List Post). Same d y.0) (not (contains event x.events)) s
        (report w project run_id x (deliver w event payload x) s) (λ e. h) (λ e. h))

dispatched_to-Same :
    (w : Wire) (project run_id ending payload : String) (s : Db) (hooks : Option (List Hook))
    (t : Db) (posts : List Post)
    → dispatched_to w project run_id ending payload s hooks ≡ some (t, posts)
    → Same s t
dispatched_to-Same w project run_id ending payload s none t posts h = absurd (none-ne-some h)
dispatched_to-Same w project run_id ending payload s (some hooks) t posts h =
    subst (λ (x : Db × List Post). Same s x.0) (some-inj h)
      (each-Same w project run_id (append "run." ending) payload hooks s (s, []) (refl, refl))

pub dispatch_webhooks-Same :
    (w : Wire) (project run_id ending payload : String) (s t : Db) (posts : List Post)
    → dispatch_webhooks w project run_id ending payload s ≡ some (t, posts)
    → Same s t
unfolding dispatch_webhooks
dispatch_webhooks-Same w project run_id ending payload s t posts h =
    dispatched_to-Same w project run_id ending payload s
      (hooks_of (bodies (list_webhooks project s).0)) t posts h
