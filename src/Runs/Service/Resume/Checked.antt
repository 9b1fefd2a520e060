-- ===== src/Runs/Service/Resume/Checked.antt =====
-- What a run that is resumed has been checked for.
use buffdata.Prelude.{
  some, true, false, refl, String, Bool, ◌≡◌, if◌then◌else◌, ap, Bool-cases, inl, inr, not, arith,
  ◌∙◌,
}
use buffdata.Prelude.Exec.{Result, err, ok, continue, raise}
use buffdata.Runs.Tables.{Db, Outside}
use buffdata.Runs.Service.{ServiceError, err_ok, ok_inj, conflict, stored}
use buffdata.Runs.Service.Resume.{
  Host, ServiceCall, resumed_inputs, settled, is_resumable, submit_run, call, resume, resume_from,
  policy, give,
}
use buffdata.Runs.Store.{RunView}
use buffdata.Prelude.Json.{Json}
use buffdata.Runs.Lifecycle.{cancel}
use mathlib.Core.Path.{subst}
use buffdata.Runs.Models.{StoreError}

pub ok-inj :
    {A : Type 0} {a b : A} {s t : Db}
    → Path (Result ServiceError A × Db) (ok a, s) (ok b, t)
    → (a ≡ b) × (s ≡ t)
ok-inj h = (ok_inj (ap (λ r. r.0) h), ap (λ r. r.1) h)

pub raised-ok :
    {A : Type 0} {e : ServiceError} {a : A} {s t : Db}
    → Path (Result ServiceError A × Db) (err e, s) (ok a, t)
    → ⊥
raised-ok h = err_ok (ap (λ r. r.0) h)

pub continue-ok :
    {A B : Type 0} (r : Result ServiceError A × Db) (f : A → ServiceCall B) (b : B) (t : Db)
    → continue r f ≡ (ok b, t)
    → (a : A) × (s' : Db) × (r ≡ (ok a, s')) × (f a s' ≡ (ok b, t))
continue-ok (err e, s') f b t h = absurd (raised-ok h)
continue-ok (ok a, s') f b t h = (a, s', refl, h)

pub guarded-ok :
    {A : Type 0} (c : Bool) (e : ServiceError) (m : ServiceCall A) (s : Db) (a : A) (t : Db)
    → (if c then raise e else m) s ≡ (ok a, t)
    → (c ≡ false) × (m s ≡ (ok a, t))
guarded-ok true e m s a t h = absurd (raised-ok h)
guarded-ok false e m s a t h = (refl, h)

pub stored-ok :
    {A : Type 0} (r : Result StoreError A × Db) (a : A) (t : Db)
    → stored r ≡ (ok a, t)
    → r ≡ (ok a, t)
stored-ok (err e, s) a t h = absurd (raised-ok h)
stored-ok (ok b, s) a t h = let (same, kept) = ok-inj h in λ i. (ok (same i), kept i)

-- Nothing that a check has raised comes back as a result.
inputs-kept :
    (h : Host) (o : Outside) (project actor : String) (previous result view : RunView) (s t : Db)
    → resumed_inputs h o project actor previous result s ≡ (ok view, t)
    → (h.python.same_json result.body.inputs previous.body.inputs ≡ true)
      × (result ≡ view)
      × (s ≡ t)
inputs-kept h o project actor previous result view s t k =
    elim (Bool-cases (h.python.same_json result.body.inputs previous.body.inputs)) [
      | inl e ↦ let (same, kept) = ok-inj (rw (resumed_inputs, e) at k) in (e, same, kept)
      | inr e ↦
          let (a, u, first, last) =
            continue-ok (call (cancel o project result.body.id actor) s)
              (λ _. raise (conflict "Resume input differs from original run")) view t
              (rw (resumed_inputs, e) at k) in
          absurd (raised-ok last)
    ]

-- What `resume` has checked where it returns a run. `previous` is the run as it was found, or as it was
-- after its stale worker was given up.
abbrev pub Resumed :
    Host → Outside → Outside → String → String → String → String → Db → RunView → Db → Type 0
Resumed h o o' project run_id actor key s view t =
    (previous : RunView) × (s1 : Db) × (s2 : Db) × (p : Json) × (identity : Json) × (settled o
        project run_id s
      ≡ (ok previous, s1))
    × (is_resumable previous.status ≡ true)
    × (policy project s1 ≡ (ok p, s2))
    × (h.identity p ≡ ok identity)
    × (h.python.same_json identity previous.body.implementation ≡ true)
    × (submit_run h o' previous.body.spec actor key (some run_id) s2 ≡ (ok view, t))
    × (h.python.same_json view.body.inputs previous.body.inputs ≡ true)

module _ (h : Host) (o o' o'' : Outside) (project run_id actor key : String) (s : Db)
    (view : RunView) (t : Db) where
  from-Resumed :
      (previous : RunView) (s1 : Db)
      → settled o project run_id s ≡ (ok previous, s1)
      → resume_from h o' o'' project run_id actor key previous s1 ≡ (ok view, t)
      → Resumed h o o' project run_id actor key s view t
  from-Resumed previous s1 found k =
      let (ended, k1) = guarded-ok (not (is_resumable previous.status)) _ _ s1 view t k in
      let (p, s2, h2, k2) = continue-ok (policy project s1) _ view t k1 in
      let (identity, s3, h3, k3) = continue-ok (give (h.identity p) s2) _ view t k2 in
      let (same, k4) =
        guarded-ok (not (h.python.same_json identity previous.body.implementation)) _ _ s3 view t
          k3 in
      let (result, s4, h4, k5) =
        continue-ok (submit_run h o' previous.body.spec actor key (some run_id) s3) _ view t k4 in
      let (inputs, one, end) = inputs-kept h o'' project actor previous result view s4 t k5 in
      (
        previous,
        s1,
        s2,
        p,
        identity,
        found,
        ground (arith, ended),
        h2,
        ap (λ r. r.0) h3,
        ground (arith, same),
        ap (submit_run h o' previous.body.spec actor key (some run_id)) (ap (λ r. r.1) h3)
            ∙ h4
            ∙ ap (λ v. (ok v, s4)) one
            ∙ ap (λ u. (ok view, u)) end,
        subst (λ v. h.python.same_json v.body.inputs previous.body.inputs ≡ true) one inputs,
      )

  -- A run is resumed only where it has failed, was cancelled or was interrupted, if need be by giving up
  -- its stale worker just now, and where the implementation, the packages, the plugins and the policy are
  -- those it was submitted with. What comes back is the answer to a submission of its specification with
  -- a link to it, and has the same inputs.
  pub resume-Resumed :
      resume h o o' o'' project run_id actor key s ≡ (ok view, t)
      → Resumed h o o' project run_id actor key s view t
  unfolding resume
  resume-Resumed k =
      let (previous, s1, found, rest) = continue-ok (settled o project run_id s) _ view t k in
      from-Resumed previous s1 found rest
