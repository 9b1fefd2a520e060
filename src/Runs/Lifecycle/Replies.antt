-- ===== src/Runs/Lifecycle/Replies.antt =====
-- What `submit`, `finish` and `heartbeat` answer.
use buffdata.Prelude.{
  ℕ, String, List, Bool, any, first, ◌==◌, ◌||◌, ◌≡◌, none, false, true, ◌∷◌, ◌++◌, some, arith, [],
  string_eq, refl, Option, eq_iff, if◌then◌else◌, Bool-cases, inl, inr, first-narrower,
  first-update, first-update-none, ◌∙◌,
}
use buffdata.Runs.Tables.{Run, Outside, RunBody, Db, has_project}
use buffdata.Runs.Lifecycle.{
  Digests, dataset_missing, submit, queued_row, is_terminal, is_leased, renewed, finish_rows,
  heartbeat, end_run, finish,
}
use buffdata.Runs.Models.{RunSpec, RunStatus, cancelled, run_conflict, succeeded, status_eq}
use buffdata.Runs.Store.{is_run, event, text_field, get, run_view}
use buffdata.Prelude.Exec.{ok, err}
use buffdata.Prelude.Json.{Json}

first-append_new :
    (p : Run → Bool) (rs : List Run) (y : Run)
    → first p rs ≡ none
    → p y ≡ true
    → first p (rs ++ y ∷ []) ≡ some y
first-append_new p [] y n t = rw t
first-append_new p (x ∷ xs) y n t = ground (arith, first-append_new p xs y)

no_such_run :
    (project id key : String) (rs : List Run)
    → any (λ q. (q.id == id) || (q.idempotency == key)) rs ≡ false
    → first (is_run project id) rs ≡ none
no_such_run project id key [] h = refl
no_such_run project id key (q ∷ rs) h = ground (arith, no_such_run project id key rs)

get_found :
    (project id : String) (d : Db) (r : Run)
    → first (is_run project id) d.runs ≡ some r
    → get project id d ≡ (ok (run_view r), d)
unfolding get
get_found project id d r found = rw (found, get)

text_refl : (s : String) → (s == s) ≡ true
text_refl s = (eq_iff s s).1 refl

-- What `submit` makes of its tables where the key is new.
abbrev submitted : Digests → Outside → RunSpec → String → String → RunBody → Db → Db
submitted g o spec actor key body d =
    event o spec.project_id "run.queued" (text_field "actor" actor) (some body.id)
      (record d { runs = d.runs ++ queued_row g o spec actor key body ∷ [] })

-- A submission under a key that a row has.
submit_known :
    (g : Digests) (o : Outside) (spec : RunSpec) (actor key : String) (body : RunBody) (d : Db)
    (old : Run)
    → first (λ r. r.idempotency == g.of_key spec.project_id actor key) d.runs ≡ some old
    → submit g o spec actor key body d ≡ (
      if old.request_hash == g.of_spec spec
          then ok (run_view old)
          else err (run_conflict "Idempotency key was used with different content"),
      d,
    )
unfolding submit
submit_known g o spec actor key body d old found =
    elim (Bool-cases (old.request_hash == g.of_spec spec)) [
      | inl same ↦ rw (found, same)
      | inr differs ↦ rw (found, differs)
    ]

module _ (g : Digests) (o : Outside) (spec : RunSpec) (actor key : String) (body : RunBody) (d : Db)
    (unused : first (λ r. r.idempotency == g.of_key spec.project_id actor key) d.runs ≡ none)
    (there : (dataset_missing d spec.project_id (some spec.dataset_id)
        || dataset_missing d spec.project_id spec.validation_dataset_id)
      ≡ false)
    (fresh : any
        (λ q. (q.id == body.id) || (q.idempotency == g.of_key spec.project_id actor key))
        d.runs
      ≡ false) where
  pub first-submitted :
      first (is_run spec.project_id body.id) (submitted g o spec actor key body d).runs
      ≡ some (queued_row g o spec actor key body)
  first-submitted =
      first-append_new (is_run spec.project_id body.id) d.runs (queued_row g o spec actor key body)
        (no_such_run spec.project_id body.id (g.of_key spec.project_id actor key) d.runs fresh)
        (rw (text_refl spec.project_id, text_refl body.id))

  pub submit_first :
      submit g o spec actor key body d
      ≡ (ok (run_view (queued_row g o spec actor key body)), submitted g o spec actor key body d)
  unfolding submit get
  submit_first =
      rw (unused, there, fresh)
        (get_found spec.project_id body.id (submitted g o spec actor key body d)
          (queued_row g o spec actor key body) first-submitted)

  -- A submission whose key is unused, whose datasets are there and whose run id is fresh is followed
  -- by another under the same key and project: with the same digest of the specification it gives
  -- the first answer again, and otherwise a conflict; either way it changes no table.
  pub submit_again :
      (o' : Outside) (spec' : RunSpec) (body' : RunBody)
      → spec'.project_id ≡ spec.project_id
      → submit g o' spec' actor key body' (submit g o spec actor key body d).1 ≡ (
        if g.of_spec spec == g.of_spec spec'
            then (submit g o spec actor key body d).0
            else err (run_conflict "Idempotency key was used with different content"),
        (submit g o spec actor key body d).1,
      )
  submit_again o' spec' body' same = rw submit_first (
      submit_known g o' spec' actor key body' (submitted g o spec actor key body d)
        (queued_row g o spec actor key body)
        (rw same (
          first-append_new (λ r. r.idempotency == g.of_key spec.project_id actor key) d.runs
            (queued_row g o spec actor key body) unused
            (text_refl (g.of_key spec.project_id actor key)))))

not_leased :
    (project run_id : String) (lease : Option String) (r : Run)
    → is_terminal r.status ≡ true
    → is_leased project run_id lease r ≡ false
not_leased project run_id lease r over = ground arith

other_id :
    (project run_id : String) (lease : Option String) (r : Run)
    → (r.id == run_id) ≡ false
    → is_leased project run_id lease r ≡ false
other_id project run_id lease r other = ground arith

not_run :
    (project run_id : String) (lease : Option String) (r : Run)
    → is_run project run_id r ≡ false
    → is_leased project run_id lease r ≡ false
not_run project run_id lease r other = ground arith

-- The row that `finish` leaves.
abbrev pub finished_row : Outside → RunStatus → Option Json → Option String → Run → Run
finished_row o status manifest error r = record r {
  status = status;
  lease = none;
  body = record r.body {
    completed_at = some o.iso;
    manifest = if status == succeeded then manifest else none;
    error = error;
  };
}

heartbeat_refused :
    (o : Outside) (project run_id : String) (lease : Option String) (d : Db)
    → first (is_leased project run_id lease) d.runs ≡ none
    → (heartbeat o project run_id lease d).0 ≡ err (run_conflict "Run lease is no longer valid")
unfolding heartbeat
heartbeat_refused o project run_id lease d missing = rw missing

-- A run that is running under a lease is finished under it, in time.
module _ (o : Outside) (project run_id : String) (lease : Option String) (status : RunStatus)
    (manifest : Option Json) (error : Option String) (stale_before : Option ℕ) (d : Db) (r : Run)
    (has : has_project d.projects project ≡ true)
    (row : first (is_run project run_id) d.runs ≡ some r)
    (held : is_leased project run_id lease r ≡ true)
    (late : renewed stale_before r.heartbeat ≡ false) (over : is_terminal status ≡ true) where
  abbrev pub settled : RunStatus
  settled = if r.cancel_requested then cancelled else status

  abbrev pub finished_db : Db
  finished_db =
      end_run o project run_id settled (if r.cancel_requested then none else manifest) error r.body
        d

  settled_over : is_terminal settled ≡ true
  settled_over = ground arith

  found : first (is_leased project run_id lease) d.runs ≡ some r
  found =
      first-narrower (is_leased project run_id lease) (is_run project run_id) d.runs r
        (not_run project run_id lease) row held

  finish_rows_lem :
      finish_rows o project run_id lease status manifest error stale_before d ≡ (ok tt, finished_db)
  finish_rows_lem = elim (Bool-cases r.cancel_requested) [
    | inl stop ↦ rw (has, found, late, stop)
    | inr go ↦ rw (has, found, late, go)
  ]

  pub finished_first :
      first (is_run project run_id) finished_db.runs
      ≡ some (finished_row o settled (if r.cancel_requested then none else manifest) error r)
  unfolding end_run
  finished_first =
      first-update (is_run project run_id) (λ q. q.id == run_id) _ d.runs r (λ x. refl) row
      ∙ ground arith

  -- `finish` with a terminal status, on a run of an existing project that is running under the lease
  -- and whose heartbeat is no later than allowed, ends the run with that status, and with its manifest
  -- if that is a success. Where cancellation was requested, it is cancelled without a manifest.
  pub finish_lem : finish o project run_id lease status manifest error stale_before d ≡ (
    ok (run_view (finished_row o settled (if r.cancel_requested then none else manifest) error r)),
    finished_db,
  )
  unfolding finish
  finish_lem = rw (over, finish_rows_lem) (get_found project run_id finished_db _ finished_first)

  pub lease_left :
      (lease' : Option String) → first (is_leased project run_id lease') finished_db.runs ≡ none
  unfolding end_run
  lease_left lease' =
      first-update-none (is_leased project run_id lease') (λ q. q.id == run_id) _ d.runs
        (λ x _.
          not_leased project run_id lease'
            (record x {
              status = settled;
              lease = none;
              body =
                  (finished_row o settled (if r.cancel_requested then none else manifest) error
                    r).body;
            })
            settled_over)
        (λ x other. other_id project run_id lease' x other)

  -- Where a run of an existing project is running under the lease, with no later heartbeat than allowed,
  -- `finish` with a terminal status spends the lease: a heartbeat right after it, under that lease or
  -- any other, is a conflict.
  pub heartbeat-finish :
      (o' : Outside) (lease' : Option String)
      → (heartbeat o' project run_id lease'
          (finish o project run_id lease status manifest error stale_before d).1).0
        ≡ err (run_conflict "Run lease is no longer valid")
  heartbeat-finish o' lease' =
      rw finish_lem (heartbeat_refused o' project run_id lease' finished_db (lease_left lease'))
