-- ===== src/Runs/Lifecycle/Calls.antt =====
-- Every operation of `RunStore` keeps the tables sound, whether it returns or raises.
use buffdata.Prelude.{
  ℕ, String, Option, Bool-cases, inr, inl, Option-cases, List, first, ◌≡◌, Bool, some, All, arith,
  true, first-All, sort_by-All, select, Only, Unique-Only, All-zip, eq_iff, select-All,
  select-holds, first-holds, ◌==◌, ◌≢◌, ◌||◌, not, ltb, ◌-◌, any, ◌++◌, none, string_eq, ◌∷◌, [],
  refl,
}
use buffdata.Runs.Lifecycle.{
  claim, next_queued, heartbeat, is_leased, claimable, is_terminal, renewed, finish_found,
  interrupt_found, finish, interrupt_stale, cancel, submit, Digests, submit_rows, submit_new,
  finish_rows, submit_after, cancel_rows, returned_or_get, dataset_missing, or_zero, stale_after,
  queued_row,
}
use buffdata.Runs.Tables.{Outside, Db, has_project, truthy, active_of, Run, RunBody}
use buffdata.Runs.Lifecycle.Invariant.{IsSound, IsRow, IsAccounted}
use buffdata.Runs.Store.{get, is_run, RunView}
use buffdata.Runs.Models.{RunStatus, queued, running, RunSpec, status_eq, interrupted, cancelled}
use buffdata.Prelude.Json.{Json}
use buffdata.Prelude.Exec.{rollback_on_raise, bind-keeps, rollback-keeps}
use buffdata.Runs.Lifecycle.Kept.{IsKept}

pub IsRow-of_first :
    (p : Run → Bool) (d : Db) (r : Run) → IsSound d → first p d.runs ≡ some r → IsRow d r
IsRow-of_first p d r h found = record {
  accounted = first-All (IsAccounted d.projects) p d.runs r h.rows found;
  only =
      first-All (Only (λ (q : Run). q.id) d.runs) p d.runs r
        (Unique-Only (λ (q : Run). q.id) d.runs h.keys) found;
}

-- A property that all rows of a table have, the row that `claim` takes has too.
next_queued-All {κ} :
    (P : Run → Type κ) (project : String) (run_id : Option String) (rs : List Run) (r : Run)
    → All P rs
    → next_queued project run_id rs ≡ some r
    → P r × (claimable project run_id r ≡ true)
unfolding next_queued
next_queued-All P project run_id rs r al found =
    first-All (λ x. P x × (claimable project run_id x ≡ true)) (λ _. true) _ r
      (sort_by-All _ (λ x. P x × (claimable project run_id x ≡ true))
        (select (claimable project run_id) rs)
        (All-zip _ _ (select (claimable project run_id) rs)
          (select-All P (claimable project run_id) rs al)
          (select-holds (claimable project run_id) rs)))
      found

pub claimed-IsRow :
    (project : String) (run_id : Option String) (d : Db) (r : Run)
    → IsSound d
    → next_queued project run_id d.runs ≡ some r
    → IsRow d r × (r.project ≡ project) × (r.status ≡ queued)
claimed-IsRow project run_id d r h found =
    let (sound, test) =
      next_queued-All (λ x. IsAccounted d.projects x × Only (λ (q : Run). q.id) d.runs x) project
        run_id d.runs r (All-zip _ _ d.runs h.rows (Unique-Only (λ (q : Run). q.id) d.runs h.keys))
        found in
    (
      record { accounted = sound.0; only = sound.1 },
      ground (arith, eq_iff r.project project),
      ground arith,
    )

pub leased_row :
    (project run_id : String) (lease : Option String) (d : Db) (r : Run)
    → first (is_leased project run_id lease) d.runs ≡ some r
    → (r.project ≡ project) × (run_id ≡ r.id) × (r.status ≡ running)
leased_row project run_id lease d r found =
    let test = first-holds (is_leased project run_id lease) d.runs r found in
    (ground (arith, eq_iff r.project project), ground (arith, eq_iff r.id run_id), ground arith)

pub get_keeps : (project run_id : String) (d : Db) → (get project run_id d).1 ≡ d
unfolding get
get_keeps project run_id d = ground arith

pub run_row :
    (project run_id : String) (d : Db) (r : Run)
    → first (is_run project run_id) d.runs ≡ some r
    → run_id ≡ r.id
run_row project run_id d r found =
    let test = first-holds (is_run project run_id) d.runs r found in
    ground (arith, eq_iff r.id run_id)

-- For any predicate that the writes keep.
module _ (P : Db → Type 0) (k : IsKept P) where
  pub claim-keeps :
      (o : Outside) (project : String) (run_id : Option String) (d : Db)
      → P d
      → P (claim o project run_id d).1
  unfolding claim
  claim-keeps o project run_id d h = elim (Bool-cases (has_project d.projects project)) [
    | inr missing ↦ rw missing h
    | inl has ↦ elim (Bool-cases (truthy (active_of d.projects project))) [
      | inl busy ↦ rw (has, busy) h
      | inr idle ↦ elim (Option-cases (next_queued project run_id d.runs)) [
        | inl empty ↦ rw (has, idle, empty) h
        | inr (r, found) ↦
            let (row, project_of, waits) = claimed-IsRow project run_id d r (k.sound d h) found in
            rw (has, idle, found) (k.start o project r d h row project_of waits has idle)
      ]
    ]
  ]

  pub heartbeat-keeps :
      (o : Outside) (project run_id : String) (lease : Option String) (d : Db)
      → P d
      → P (heartbeat o project run_id lease d).1
  unfolding heartbeat
  heartbeat-keeps o project run_id lease d h =
      elim (Option-cases (first (is_leased project run_id lease) d.runs)) [
        | inl missing ↦ rw missing h
        | inr (r, found) ↦
            let (_, id_of, run) = leased_row project run_id lease d r found in
            rw (found, id_of)
              (k.beat o r d h
                (IsRow-of_first (is_leased project run_id lease) d r (k.sound d h) found) run)
      ]

  finished :
      (o : Outside) (project run_id : String) (lease : Option String) (status : RunStatus)
      (manifest : Option Json) (error : Option String) (stale_before : Option ℕ) (d : Db) (r : Run)
      → P d
      → first (is_leased project run_id lease) d.runs ≡ some r
      → is_terminal status ≡ true
      → P (finish_found o project run_id status manifest error stale_before (some r) d).1
  finished o project run_id lease status manifest error stale_before d r h found t =
      let (project_of, id_of, run) = leased_row project run_id lease d r found in
      let row : IsRow d r =
        IsRow-of_first (is_leased project run_id lease) d r (k.sound d h) found in
      elim (Bool-cases (renewed stale_before r.heartbeat)) [
        | inl late ↦ rw late h
        | inr stale ↦ elim (Bool-cases r.cancel_requested) [
          | inl stop ↦
              rw (stale, stop, id_of)
                (k.end o project cancelled none error r d h row project_of run refl)
          | inr go ↦
              rw (stale, go, id_of)
                (k.end o project status manifest error r d h row project_of run t)
        ]
      ]

  get-keeps : (project run_id : String) (d : Db) → P d → P (get project run_id d).1
  get-keeps project run_id d h = rw get_keeps h

  pub finish-keeps :
      (o : Outside) (project run_id : String) (lease : Option String) (status : RunStatus)
      (manifest : Option Json) (error : Option String) (stale_before : Option ℕ) (d : Db)
      → P d
      → P (finish o project run_id lease status manifest error stale_before d).1
  unfolding finish
  finish-keeps o project run_id lease status manifest error stale_before d h =
      elim (Bool-cases (is_terminal status)) [
        | inr open_status ↦ rw open_status h
        | inl t ↦ rw t (
            bind-keeps P
              (rollback_on_raise
                (finish_rows o project run_id lease status manifest error stale_before))
              (λ _. get project run_id) d
              (rollback-keeps P
                (finish_rows o project run_id lease status manifest error stale_before) d h
                (elim (Bool-cases (has_project d.projects project)) [
                  | inr missing ↦ rw missing h
                  | inl has ↦ elim (Option-cases (first (is_leased project run_id lease) d.runs)) [
                    | inl none_found ↦ rw (has, none_found) h
                    | inr (r, found) ↦
                        rw (has, found)
                          (finished o project run_id lease status manifest error stale_before d r h
                            found t)
                  ]
                ]))
              (λ _. get-keeps project run_id))
      ]

  pub cancel-keeps :
      (o : Outside) (project run_id actor : String) (d : Db)
      → P d
      → P (cancel o project run_id actor d).1
  unfolding cancel
  cancel-keeps o project run_id actor d h =
      bind-keeps P (rollback_on_raise (cancel_rows o project run_id actor))
        (λ _. get project run_id) d
        (rollback-keeps P (cancel_rows o project run_id actor) d h
          (elim (Bool-cases (has_project d.projects project)) [
            | inr missing ↦ rw missing h
            | inl has ↦ elim (Option-cases (first (is_run project run_id) d.runs)) [
              | inl none_found ↦ rw (has, none_found) h
              | inr (r, found) ↦ elim (Bool-cases ((r.status == queued) || (r.status == running))) [
                | inr over ↦ rw (has, found, over) h
                | inl live ↦
                    rw (has, found, live, run_row project run_id d r found)
                      (k.stop o project actor r d h
                        (IsRow-of_first (is_run project run_id) d r (k.sound d h) found)
                        (ground arith))
              ]
            ]
          ]))
        (λ _. get-keeps project run_id)

  interrupt_found-keeps :
      (o : Outside) (project run_id : String) (found : Option Run) (d : Db)
      → P d
      → P (interrupt_found o project run_id found d).1
  interrupt_found-keeps o project run_id none d h = h
  interrupt_found-keeps o project run_id (some r) d h =
      elim (Bool-cases
        (not (r.status == running) || ltb (o.now - or_zero r.heartbeat) stale_after)) [
          | inl fresh ↦ rw fresh h
          | inr stale ↦ rw stale (finish-keeps o project run_id r.lease interrupted none _ _ d h)
        ]

  pub interrupt_stale-keeps :
      (o : Outside) (project run_id : String) (d : Db)
      → P d
      → P (interrupt_stale o project run_id d).1
  unfolding interrupt_stale
  interrupt_stale-keeps o project run_id d h =
      interrupt_found-keeps o project run_id (first (is_run project run_id) d.runs) d h

  returned-keeps :
      (project run_id : String) (early : Option RunView) (d : Db)
      → P d
      → P (returned_or_get project run_id early d).1
  returned-keeps project run_id none d h = get-keeps project run_id d h
  returned-keeps project run_id (some view) d h = h

  submit_new-keeps :
      (g : Digests) (o : Outside) (spec : RunSpec) (actor key : String) (body : RunBody) (d : Db)
      → body.id ≢ ""
      → P d
      → P (submit_new g o spec actor key body d).1
  submit_new-keeps g o spec actor key body d named h =
      elim (Bool-cases (
        dataset_missing d spec.project_id (some spec.dataset_id)
        || dataset_missing d spec.project_id spec.validation_dataset_id)) [
          | inl gone ↦ rw gone h
          | inr there ↦
              elim (Bool-cases (
                any
                  (λ q. (q.id == body.id) || (q.idempotency == g.of_key spec.project_id actor key))
                  d.runs)) [
                    | inl taken ↦ rw (there, taken) h
                    | inr fresh ↦
                        rw (there, fresh)
                          (k.elsewhere
                            (record d { runs = d.runs ++ queued_row g o spec actor key body ∷ [] })
                            _ refl refl
                            (k.add (queued_row g o spec actor key body) d h named refl refl refl
                              fresh))
                  ]
        ]

  submit_after-keeps :
      (g : Digests) (o : Outside) (spec : RunSpec) (actor key : String) (body : RunBody)
      (old : Option Run) (d : Db)
      → body.id ≢ ""
      → P d
      → P (submit_after g o spec actor key body old d).1
  submit_after-keeps g o spec actor key body none d named h =
      submit_new-keeps g o spec actor key body d named h
  submit_after-keeps g o spec actor key body (some old) d named h =
      elim (Bool-cases (old.request_hash == g.of_spec spec)) [
        | inl same ↦ rw same h
        | inr differs ↦ rw differs h
      ]

  pub submit-keeps :
      (g : Digests) (o : Outside) (spec : RunSpec) (actor key : String) (body : RunBody) (d : Db)
      → body.id ≢ ""
      → P d
      → P (submit g o spec actor key body d).1
  unfolding submit
  submit-keeps g o spec actor key body d named h =
      bind-keeps P (rollback_on_raise (submit_rows g o spec actor key body))
        (returned_or_get spec.project_id body.id) d
        (rollback-keeps P (submit_rows g o spec actor key body) d h
          (submit_after-keeps g o spec actor key body _ d named h))
        (λ early. returned-keeps spec.project_id body.id early)
