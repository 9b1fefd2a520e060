-- ===== src/Runs/Lifecycle/Success.antt =====
-- What `finish` has found where the run that it returns succeeded.
use buffdata.Prelude.{
  [], none, some, true, false, refl, String, Bool, Option, List, ◌∷◌, ◌==◌, if◌then◌else◌, ◌≡◌,
  first, Bool-cases, Option-cases, inl, inr, arith, eq_iff, ap, sym, ◌∙◌, first-holds, none-ne-some,
  first-All, string_eq,
}
use buffdata.Prelude.Exec.{Result, ok, err}
use buffdata.Prelude.Json.{Json}
use buffdata.Runs.Models.{RunStatus, succeeded, cancelled, StoreError}
use buffdata.Runs.Tables.{Outside, Db, Run, has_project, Project, active_of}
use buffdata.Runs.Store.{RunView, is_run}
use buffdata.Runs.Lifecycle.{finish, is_leased, is_terminal}
use buffdata.Runs.Lifecycle.Invariant.{IsSound}
use buffdata.Runs.Lifecycle.Calls.{IsRow-of_first, leased_row}
use buffdata.Runs.Lifecycle.Replies.{finish_lem, finished_row, finished_first, lease_left}
use mathlib.Core.Bool.{false≢true}
use mathlib.Core.Path.{subst}

wider :
    (p q : Run → Bool) (rs : List Run) (r : Run)
    → ((x : Run) → p x ≡ true → q x ≡ true)
    → first p rs ≡ some r
    → (x : Run) × (first q rs ≡ some x)
wider p q [] r f h = absurd (none-ne-some h)
wider p q (x ∷ rs) r f h = elim (Bool-cases (q x)) [
  | inl e ↦ (x, rw e refl)
  | inr e ↦ elim (Bool-cases (p x)) [
    | inl k ↦ absurd (false≢true (sym e ∙ f x k))
    | inr k ↦ rw e (wider p q rs r f (rw k at h))
  ]
]

leased-is_run :
    (project run_id : String) (lease : Option String) (x : Run)
    → is_leased project run_id lease x ≡ true
    → is_run project run_id x ≡ true
leased-is_run project run_id lease x h = ground (arith, h)

is_run-id :
    (project run_id : String) (x r : Run)
    → is_run project run_id x ≡ true
    → run_id ≡ r.id
    → x.id ≡ r.id
is_run-id project run_id x r h e = ground (arith, h, e, eq_iff x.id run_id)

-- A run under a lease is the run of its id.
leased_first :
    (project run_id : String) (lease : Option String) (d : Db) (r : Run)
    → IsSound d
    → first (is_leased project run_id lease) d.runs ≡ some r
    → first (is_run project run_id) d.runs ≡ some r
leased_first project run_id lease d r sound h =
    let (x, e) =
      wider (is_leased project run_id lease) (is_run project run_id) d.runs r
        (leased-is_run project run_id lease) h in
    let row = IsRow-of_first (is_leased project run_id lease) d r sound h in
    let same =
      first-All (λ (y : Run). y.id ≡ r.id → y ≡ r) (is_run project run_id) d.runs x row.only e
        (is_run-id project run_id x r (first-holds (is_run project run_id) d.runs x e)
          (leased_row project run_id lease d r h).1) in
    e ∙ ap some same

module _ (o : Outside) (project run_id : String) (lease : Option String) (status : RunStatus)
    (manifest : Option Json) (error : Option String) (d : Db) (view : RunView) (t : Db) where
  store_raised :
      {e : StoreError} {s : Db} {A : Type 0}
      → Path (Result StoreError RunView × Db) (err e, s) (ok view, t)
      → A
  store_raised h = let k = ap (λ r. r.0) h in cc

  -- `finish` returns only where the run is under the lease.
  finish-Leased :
      finish o project run_id lease status manifest error none d ≡ (ok view, t)
      → (is_terminal status ≡ true)
        × (has_project d.projects project ≡ true)
        × ((r : Run) × (first (is_leased project run_id lease) d.runs ≡ some r))
  unfolding finish
  finish-Leased h = elim (Bool-cases (is_terminal status)) [
    | inr e ↦ store_raised (rw e at h)
    | inl e ↦ elim (Bool-cases (has_project d.projects project)) [
      | inr f ↦ store_raised (rw (e, f) at h)
      | inl f ↦ elim (Option-cases (first (is_leased project run_id lease) d.runs)) [
        | inl k ↦ store_raised (rw (e, f, k) at h)
        | inr (r, k) ↦ (e, f, (r, k))
      ]
    ]
  ]

  settled_success :
      (r : Run)
      → (if r.cancel_requested then cancelled else status) ≡ succeeded
      → (r.cancel_requested ≡ false) × (status ≡ succeeded)
  settled_success r h = elim (Bool-cases r.cancel_requested) [
    | inl e ↦ let k : ◌≡◌ {A = RunStatus} cancelled succeeded = rw e at h in cc
    | inr e ↦ (e, rw e at h)
  ]

  found-inj :
      {a b : RunView} {s u : Db}
      → Path (Result StoreError RunView × Db) (ok a, s) (ok b, u)
      → (a ≡ b) × (s ≡ u)
  found-inj k = let first_part = ap (λ r. r.0) k in (cc, ap (λ r. r.1) k)

  -- The run that `finish` returns as one that succeeded.
  abbrev pub Succeeded : Type 0
  Succeeded =
      (r : Run) × (first (is_leased project run_id lease) d.runs ≡ some r)
      × (r.cancel_requested ≡ false)
      × (status ≡ succeeded)
      × (first (is_run project run_id) t.runs ≡ some (finished_row o succeeded manifest error r))

  finished-Succeeded :
      (r : Run)
      → first (is_leased project run_id lease) d.runs ≡ some r
      → r.cancel_requested ≡ false
      → status ≡ succeeded
      → first (is_run project run_id) t.runs
        ≡ some (
            finished_row o
              (if r.cancel_requested then cancelled else status)
              (if r.cancel_requested then none else manifest)
              error
              r)
      → Succeeded
  finished-Succeeded r f go won e =
      let stopped =
        subst
          (λ (c : Bool).
            first (is_run project run_id) t.runs
            ≡ some (
                finished_row o (if c then cancelled else status) (if c then none else manifest)
                  error r))
          go e in
      (
        r,
        f,
        go,
        won,
        subst
            (λ (x : RunStatus).
              first (is_run project run_id) t.runs ≡ some (finished_row o x manifest error r))
            won stopped,
      )

  pub finish-Succeeded :
      IsSound d
      → finish o project run_id lease status manifest error none d ≡ (ok view, t)
      → view.status ≡ succeeded
      → Succeeded
  finish-Succeeded sound h won =
      let (over, has, (r, f)) = finish-Leased h in
      let row = leased_first project run_id lease d r sound f in
      let held = first-holds (is_leased project run_id lease) d.runs r f in
      let (seen, left) = found-inj (
        sym
          (finish_lem o project run_id lease status manifest error none d r has row held refl over)
        ∙ h) in
      let (go, same) = settled_success r (ap (λ (w : RunView). w.status) seen ∙ won) in
      finished-Succeeded r f go same (
        subst
          (λ (u : Db).
            first (is_run project run_id) u.runs
            ≡ some (
                finished_row o (if r.cancel_requested then cancelled else status)
                  (if r.cancel_requested then none else manifest) error r))
          left
          (finished_first o project run_id lease status manifest error none d r has row held refl
            over))

active-has :
    (ps : List Project) (project id : String)
    → active_of ps project ≡ some id
    → has_project ps project ≡ true
active-has [] project id h = absurd (none-ne-some h)
active-has (p ∷ ps) project id h = elim (Bool-cases (p.id == project)) [
  | inl e ↦ rw e refl
  | inr e ↦ rw e (active-has ps project id (rw e at h))
]

leased-has :
    (project run_id : String) (lease : Option String) (d : Db) (r : Run)
    → IsSound d
    → first (is_leased project run_id lease) d.runs ≡ some r
    → has_project d.projects project ≡ true
leased-has project run_id lease d r sound h =
    let (place, id, run) = leased_row project run_id lease d r h in
    active-has d.projects project r.id (
      rw place at
        ((IsRow-of_first (is_leased project run_id lease) d r sound h).accounted.active run))

-- No run is under the lease when `finish` with a terminal status has returned or raised.
pub finish-released :
    (o : Outside) (project run_id : String) (lease : Option String) (status : RunStatus)
    (manifest : Option Json) (error : Option String) (d : Db)
    → IsSound d
    → is_terminal status ≡ true
    → first
        (is_leased project run_id lease)
        (finish o project run_id lease status manifest error none d).1.runs
      ≡ none
unfolding finish
finish-released o project run_id lease status manifest error d sound over =
    elim (Option-cases (first (is_leased project run_id lease) d.runs)) [
      | inl k ↦ elim (Bool-cases (has_project d.projects project)) [
        | inl f ↦ rw (over, f, k) k
        | inr f ↦ rw (over, f) k
      ]
      | inr (r, k) ↦
          let row = leased_first project run_id lease d r sound k in
          let held = first-holds (is_leased project run_id lease) d.runs r k in
          let has = leased-has project run_id lease d r sound k in
          subst
            (λ (x : Result StoreError RunView × Db).
              first (is_leased project run_id lease) x.1.runs ≡ none)
            (sym (
              finish_lem o project run_id lease status manifest error none d r has row held refl
                over))
            (lease_left o project run_id lease status manifest error none d r has row held refl over
              lease)
    ]
