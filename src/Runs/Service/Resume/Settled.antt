-- ===== src/Runs/Service/Resume/Settled.antt =====
-- The run as `resume` finds it, where its worker may be given up.
use buffdata.Prelude.{
  none, some, true, ℕ, String, Option, ◌≡◌, ◌≤◌, ◌-◌, ◌==◌, ◌∙◌, ◌⊎◌, ◌||◌, not, first, ap, sym,
  arith, string_eq, Bool-cases, Option-cases, inl, inr, ltb,
}
use buffdata.Prelude.Exec.{Result, ok, err, continue}
use buffdata.Prelude.Json.{Json}
use buffdata.Runs.Models.{RunStatus, StoreError, running, interrupted, status_eq}
use buffdata.Runs.Tables.{Db, Outside, Run}
use buffdata.Runs.Store.{RunView, run_view, is_run, get}
use buffdata.Runs.Lifecycle.{finish, interrupt_stale, stale_after, or_zero, is_terminal}
use buffdata.Runs.Service.Resume.{call, settled}
use buffdata.Runs.Service.Resume.Checked.{stored-ok, continue-ok, ok-inj}
use mathlib.Core.Path.{subst}

store_inj : {A : Type 0} {a b : A} → Path (Result StoreError A) (ok a) (ok b) → a ≡ b
store_inj h = cc

err_no_ok : {A : Type 0} {e : StoreError} {a : A} → Path (Result StoreError A) (err e) (ok a) → ⊥
err_no_ok h = cc

pub store_ok :
    {A : Type 0} {a b : A} {s t : Db}
    → Path (Result StoreError A × Db) (ok a, s) (ok b, t)
    → (a ≡ b) × (s ≡ t)
store_ok h = (store_inj (ap (λ r. r.0) h), ap (λ r. r.1) h)

pub store_err :
    {A B : Type 0} {e : StoreError} {a : A} {s t : Db}
    → Path (Result StoreError A × Db) (err e, s) (ok a, t)
    → B
store_err h = absurd (err_no_ok (ap (λ r. r.0) h))

pub get-ok :
    (project run_id : String) (d t : Db) (v : RunView)
    → get project run_id d ≡ (ok v, t)
    → (r : Run) × (first (is_run project run_id) d.runs ≡ some r) × (run_view r ≡ v) × (d ≡ t)
unfolding get
get-ok project run_id d t v h = elim (Option-cases (first (is_run project run_id) d.runs)) [
  | inl e ↦ store_err (rw (get, e) at h)
  | inr (r, e) ↦ let l = store_ok (rw (get, e) at h) in (r, e, l.0, l.1)
]

then-get :
    (project run_id : String) (x : Result StoreError Unit × Db) (t : Db) (v : RunView)
    → continue x (λ _. get project run_id) ≡ (ok v, t)
    → (r : Run) × (first (is_run project run_id) t.runs ≡ some r) × (run_view r ≡ v)
then-get project run_id (err e, d) t v h = store_err h
then-get project run_id (ok u, d) t v h =
    let (r, row, seen, same) = get-ok project run_id d t v h in
    (r, subst (λ (u : Db). first (is_run project run_id) u.runs ≡ some r) same row, seen)

-- What `finish` returns is the row that it leaves.
finish-row :
    (o : Outside) (project run_id : String) (lease : Option String) (status : RunStatus)
    (manifest : Option Json) (error : Option String) (stale_before : Option ℕ) (d t : Db)
    (v : RunView)
    → finish o project run_id lease status manifest error stale_before d ≡ (ok v, t)
    → (r : Run) × (first (is_run project run_id) t.runs ≡ some r) × (run_view r ≡ v)
unfolding finish
finish-row o project run_id lease status manifest error stale_before d t v h =
    elim (Bool-cases (is_terminal status)) [
      | inr e ↦ store_err (rw e at h)
      | inl e ↦ then-get project run_id _ t v (rw e at h)
    ]

-- The tables are those that the run was found in; or it was running, and its worker had sent no heartbeat
-- for so long that it was given up.
abbrev pub GivenUp : Outside → String → String → Db → Db → Type 0
GivenUp o project run_id s s1 =
    (s1 ≡ s)
    ⊎ ((q : Run) × (first (is_run project run_id) s.runs ≡ some q)
        × ((q.status == running) ≡ true)
        × (stale_after ≤ o.now - or_zero q.heartbeat))

interrupted-row :
    (o : Outside) (project run_id : String) (s t : Db) (v : RunView)
    → interrupt_stale o project run_id s ≡ (ok v, t)
    → GivenUp o project run_id s t
      × ((r : Run) × (first (is_run project run_id) t.runs ≡ some r) × (run_view r ≡ v))
unfolding interrupt_stale
interrupted-row o project run_id s t v h =
    elim (Option-cases (first (is_run project run_id) s.runs)) [
      | inl e ↦ store_err (rw e at h)
      | inr (q, e) ↦
          elim (Bool-cases
            (not (q.status == running) || ltb (o.now - or_zero q.heartbeat) stale_after)) [
              | inl f ↦ store_err (rw (e, f) at h)
              | inr f ↦ (
                inr (q, e, ground (arith, f), ground (arith, f)),
                finish-row o project run_id q.lease interrupted none
                    (some "Worker heartbeat expired") (some (o.now - stale_after)) s t v
                    (rw (e, f) at h),
              )
            ]
    ]

pub settled-row :
    (o : Outside) (project run_id : String) (s t : Db) (v : RunView)
    → settled o project run_id s ≡ (ok v, t)
    → GivenUp o project run_id s t
      × ((r : Run) × (first (is_run project run_id) t.runs ≡ some r) × (run_view r ≡ v))
unfolding settled
settled-row o project run_id s t v h =
    let (w, s', h1, k1) = continue-ok (call (get project run_id) s) _ v t h in
    let (r, row, seen, same) = get-ok project run_id s s' w (stored-ok _ w s' h1) in
    elim (Bool-cases (w.status == running)) [
      | inl e ↦
          subst
            (λ u.
              GivenUp o project run_id u t
              × ((r : Run) × (first (is_run project run_id) t.runs ≡ some r) × (run_view r ≡ v)))
            (sym same) (interrupted-row o project run_id s' t v (stored-ok _ v t (rw e at k1)))
      | inr e ↦
          let l = ok-inj (rw e at k1) in
          (
            inl (sym (same ∙ l.1)),
            (
              r,
              subst (λ (u : Db). first (is_run project run_id) u.runs ≡ some r) (same ∙ l.1) row,
              seen ∙ l.0,
            ),
          )
    ]
