-- ===== src/Runs/Service/Webhooks/Dispatch.antt =====
-- Which messages are sent when a run ends, and what is recorded of them.
use Prim.Native.String.{◌++◌ as append}
use buffdata.Runs.Service.Webhooks.{delivered, dispatch_webhooks, hooks_of, bodies, dispatched_to}
use buffdata.Prelude.{
  [], some, refl, String, List, select, ◌∷◌, ◌++◌, contains, if◌then◌else◌, ◌≡◌, string_eq, map,
  Bool-cases, ◌||◌, inr, inl, ◌∙◌, ap, sym, append_assoc, append_nil,
}
use buffdata.Runs.Service.Webhooks.{
  Wire, dispatch_each, Post, Hook, Delivery, attempts, post_to, report, is_success, deliver,
  outcome_kind, outcome_body, delivered, exhausted, error_of,
}
use buffdata.Runs.Sessions.{record_event, list_webhooks}
use buffdata.Runs.Tables.{Db, Event}

module _ (w : Wire) where
  -- How the three attempts for one message end.
  abbrev pub three_attempts : Post → Delivery
  three_attempts post =
      if is_success (w.send post 0) || is_success (w.send post 1) || is_success (w.send post 2)
      then delivered
      else exhausted (error_of w (w.send post 2))

  -- The message is sent again after each attempt that failed, at most three times.
  abbrev pub resent : Post → List Post
  resent post =
      post
      ∷ (if is_success (w.send post 0)
          then []
          else post ∷ (if is_success (w.send post 1) then [] else post ∷ []))

  attempts-outcome :
      (post : Post) (last_error : String)
      → attempts w post 3 0 last_error ≡ (three_attempts post, resent post)
  attempts-outcome post last_error = elim (Bool-cases (is_success (w.send post 0))) [
    | inl a ↦ rw a refl
    | inr a ↦ elim (Bool-cases (is_success (w.send post 1))) [
      | inl b ↦ rw (a, b) refl
      | inr b ↦ elim (Bool-cases (is_success (w.send post 2))) [
        | inl c ↦ rw (a, b, c) refl
        | inr c ↦ rw (a, b, c) refl
      ]
    ]
  ]

  module _ (project run_id event payload : String) where
    abbrev pub outcome_event : Hook → Event
    outcome_event h =
        let d = three_attempts (post_to w event payload h) in
        record {
          run_id = some run_id;
          project = project;
          created = (w.clock h.id).event_time;
          kind = outcome_kind d;
          body = outcome_body h d;
        }

    abbrev pub subscribed : List Hook → List Hook
    subscribed hooks = select (λ h. contains event h.events) hooks

    abbrev pub all_posts : List Hook → List Post
    all_posts [] = []
    all_posts (h ∷ hooks) = resent (post_to w event payload h) ++ all_posts hooks

    -- The tables with these outcomes, and the messages sent.
    abbrev pub dispatched : List Hook → Db × List Post → Db × List Post
    dispatched hooks (s, sent) =
        (record s { events = s.events ++ map outcome_event hooks }, sent ++ all_posts hooks)

    report-dispatched :
        (h : Hook) (hooks : List Hook) (s : Db × List Post)
        → dispatched hooks (report w project run_id h (deliver w event payload h) s)
          ≡ dispatched (h ∷ hooks) s
    unfolding record_event
    report-dispatched h hooks (s, sent) =
        let post = post_to w event payload h in
        let e = outcome_event h in
        ap (λ r. dispatched hooks (report w project run_id h r (s, sent)))
          (attempts-outcome post "no delivery attempt")
        ∙ (ap (λ es. (record s { events = es }, (sent ++ resent post) ++ all_posts hooks))
              (append_assoc s.events (e ∷ []) (map outcome_event hooks))
            ∙ ap (λ ps. (record s { events = s.events ++ e ∷ map outcome_event hooks }, ps))
                (append_assoc sent (resent post) (all_posts hooks)))

    dispatch_each-dispatched :
        (hooks : List Hook) (s : Db × List Post)
        → dispatch_each w project run_id event payload hooks s ≡ dispatched (subscribed hooks) s
    unfolding dispatch_each
    dispatch_each-dispatched [] (s, sent) =
        ap (λ es. (record s { events = es }, sent)) (sym (append_nil s.events))
        ∙ ap (λ ps. (record s { events = s.events ++ [] }, ps)) (sym (append_nil sent))
    dispatch_each-dispatched (h ∷ hooks) s = elim (Bool-cases (contains event h.events)) [
      | inr e ↦ rw e (dispatch_each-dispatched hooks s)
      | inl e ↦ rw e (
          dispatch_each-dispatched hooks (report w project run_id h (deliver w event payload h) s)
          ∙ report-dispatched h (subscribed hooks) s)
    ]

-- When a run ends, each webhook of the project that has subscribed to the event, and no other, is sent
-- the signed message, up to three times and never again after a success. Just one event is recorded for
-- it, in the order of registration: a delivery if one of the three attempts was answered with a status
-- from 200 to 299, and otherwise a failure with the error of the last. Nothing else changes.
pub dispatch_webhooks_lem :
    (w : Wire) (project run_id ending payload : String) (s : Db) (hooks : List Hook)
    → hooks_of (bodies (list_webhooks project s).0) ≡ some hooks
    → let event = append "run." ending in
      dispatch_webhooks w project run_id ending payload s
      ≡ some (
          dispatched w project run_id event payload
            (subscribed w project run_id event payload hooks)
            (s, []))
unfolding dispatch_webhooks
dispatch_webhooks_lem w project run_id ending payload s hooks h =
    ap (dispatched_to w project run_id ending payload s) h
    ∙ ap some
        (dispatch_each-dispatched w project run_id (append "run." ending) payload hooks (s, []))
