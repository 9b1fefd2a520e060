-- ===== src/Runs/Lifecycle/Invariant.antt =====
-- What holds of the tables of runs and projects between two calls, and the writes that keep it.
use buffdata.Prelude.{
  String, ◌≡◌, ◌≢◌, false, Option, none, some, List, [], ◌∷◌, string_eq, ◌==◌, if◌then◌else◌,
  update, All, Unique, arith, eq_iff, Only, true, Unique-update, All-update, All-zip, refl, ◌⊎◌,
  All-imp, any, ◌∙◌, ◌++◌, ◌||◌, Unique-append, All-append,
}
use buffdata.Runs.Models.{queued, running, status_eq, RunStatus, cancelled}
use buffdata.Runs.Tables.{Project, Run, Db, active_of, has_project, truthy, Outside, RunBody}
use buffdata.Runs.Lifecycle.{start_run, end_run, request_cancel, is_terminal}
use buffdata.Prelude.Json.{Json}

pub record IsAccounted (ps : List Project) (r : Run) : Type 0 where
  pub named : r.id ≢ ""
  -- A running run is the active run of its project.
  pub active : r.status ≡ running → active_of ps r.project ≡ some r.id
  -- A lease is held exactly while the run is running.
  pub leased : r.status ≡ running → r.lease ≢ none
  pub unleased : r.status ≢ running → r.lease ≡ none
  pub uncancelled : r.status ≡ queued → r.cancel_requested ≡ false

pub record IsSound (d : Db) : Type 0 where
  pub keys : Unique (λ (r : Run). r.id) d.runs
  pub rows : All (IsAccounted d.projects) d.runs

active_of-update :
    (ps : List Project) (q j : String) (a : Option String)
    → active_of (update (λ p. p.id == q) (λ p. record p { active_run = a }) ps) j
      ≡ (if q == j then (if has_project ps j then a else none) else active_of ps j)
active_of-update [] q j a = ground arith
active_of-update (p ∷ ps) q j a =
    ground (arith, active_of-update ps q j a, eq_iff p.id q, eq_iff p.id j, eq_iff q j)

-- A row found by a query, and the only one of its id.
pub record IsRow (d : Db) (r : Run) : Type 0 where
  pub accounted : IsAccounted d.projects r
  pub only : Only (λ (q : Run). q.id) d.runs r

-- What `claim` does to the row that it claims, and to the others.
started :
    (o : Outside) (ps : List Project) (project : String) (r x : Run)
    → r.project ≡ project
    → has_project ps project ≡ true
    → x ≡ r
    → IsAccounted ps r
    → IsAccounted
        (update (λ p. p.id == project) (λ p. record p { active_run = some r.id }) ps)
        (record x { status = running; lease = some o.token; heartbeat = some o.now })
started o ps project r x e has same h = record {
  named = ground (arith, h.named);
  active = λ _.
      rw (same, e)
        (ground (arith, active_of-update ps project project (some r.id), eq_iff project project));
  leased = λ _ n. cc;
  unleased = λ n. absurd (n refl);
  uncancelled = λ n. cc;
}

unstarted :
    (ps : List Project) (project : String) (r x : Run)
    → truthy (active_of ps project) ≡ false
    → IsAccounted ps x
    → IsAccounted (update (λ p. p.id == project) (λ p. record p { active_run = some r.id }) ps) x
unstarted ps project r x idle h = record {
  named = h.named;
  active = λ run. ground (
    arith,
    active_of-update ps project x.project (some r.id),
    h.active run,
    h.named,
    eq_iff project x.project,
    eq_iff x.id "",
  );
  leased = h.leased;
  unleased = h.unleased;
  uncancelled = h.uncancelled;
}

pub start_run-IsSound :
    (o : Outside) (project : String) (r : Run) (d : Db)
    → IsSound d
    → IsRow d r
    → r.project ≡ project
    → has_project d.projects project ≡ true
    → truthy (active_of d.projects project) ≡ false
    → IsSound (start_run o project r.id d)
unfolding start_run
start_run-IsSound o project r d h row e has idle = record {
  keys = Unique-update (λ (r : Run). r.id) _ _ d.runs (λ x. refl) h.keys;
  rows =
      All-update (λ x. IsAccounted d.projects x × (x.id ≡ r.id → x ≡ r)) (IsAccounted _)
        (λ q. q.id == r.id) _ d.runs
        (λ x hx t.
          started o d.projects project r x e has (hx.1 ((eq_iff x.id r.id).0 t)) row.accounted)
        (λ x hx f. unstarted d.projects project r x idle hx.0) (All-zip _ _ d.runs h.rows row.only);
}

ended :
    (o : Outside) (ps : List Project) (status : RunStatus) (body : RunBody) (x : Run)
    → is_terminal status ≡ true
    → IsAccounted ps x
    → IsAccounted ps (record x { status = status; lease = none; body = body })
ended o ps status body x t h = record {
  named = h.named;
  active = λ e. ground arith;
  leased = λ e. ground arith;
  unleased = λ _. refl;
  uncancelled = λ e. ground arith;
}

unended :
    (ps : List Project) (project : String) (r x : Run)
    → active_of ps project ≡ some r.id
    → x.id ≢ r.id
    → IsAccounted ps x
    → IsAccounted (update (λ p. p.id == project) (λ p. record p { active_run = none }) ps) x
unended ps project r x busy other h = record {
  named = h.named;
  active = λ run.
      ground
        (arith, active_of-update ps project x.project none, h.active run, eq_iff project x.project);
  leased = h.leased;
  unleased = h.unleased;
  uncancelled = h.uncancelled;
}

-- A run that has ended is accounted for whatever the projects say.
ended-any :
    (ps qs : List Project) (x : Run)
    → is_terminal x.status ≡ true
    → IsAccounted ps x
    → IsAccounted qs x
ended-any ps qs x t h = record {
  named = h.named;
  active = λ e. ground arith;
  leased = h.leased;
  unleased = h.unleased;
  uncancelled = h.uncancelled;
}

pub end_run-IsSound :
    (o : Outside) (project : String) (status : RunStatus) (manifest : Option Json)
    (error : Option String) (body : RunBody) (r : Run) (d : Db)
    → IsSound d
    → IsRow d r
    → r.project ≡ project
    → r.status ≡ running
    → is_terminal status ≡ true
    → IsSound (end_run o project r.id status manifest error body d)
unfolding end_run
end_run-IsSound o project status manifest error body r d h row e run t = record {
  keys = Unique-update (λ (r : Run). r.id) _ _ d.runs (λ x. refl) h.keys;
  rows =
      All-update (IsAccounted d.projects) (IsAccounted _) (λ q. q.id == r.id) _ d.runs
        (λ x hx _. ended-any d.projects _ _ t (ended o d.projects status _ x t hx))
        (λ x hx f.
          unended d.projects project r x (rw (← e) (row.accounted.active run))
            (λ same. ground (arith, eq_iff x.id r.id)) hx)
        h.rows;
}

cancelling :
    (ps : List Project) (r x : Run)
    → (r.status ≡ queued) ⊎ (r.status ≡ running)
    → x ≡ r
    → IsAccounted ps r
    → IsAccounted ps (record x {
      cancel_requested = true;
      status = if r.status == queued then cancelled else running;
    })
cancelling ps r x live same h = rw same (record {
  named = h.named;
  active = λ e. ground (arith, h.active);
  leased = λ e. ground (arith, h.leased);
  unleased = λ e. ground (arith, h.unleased);
  uncancelled = λ e. ground arith;
})

pub request_cancel-IsSound :
    (o : Outside) (project actor : String) (r : Run) (d : Db)
    → IsSound d
    → IsRow d r
    → (r.status ≡ queued) ⊎ (r.status ≡ running)
    → IsSound (request_cancel o project r.id actor r.status d)
unfolding request_cancel
request_cancel-IsSound o project actor r d h row live = record {
  keys = Unique-update (λ (r : Run). r.id) _ _ d.runs (λ x. refl) h.keys;
  rows =
      All-update (λ x. IsAccounted d.projects x × (x.id ≡ r.id → x ≡ r)) (IsAccounted d.projects)
        (λ q. q.id == r.id) _ d.runs
        (λ x hx t. cancelling d.projects r x live (hx.1 ((eq_iff x.id r.id).0 t)) row.accounted)
        (λ x hx f. hx.0) (All-zip _ _ d.runs h.rows row.only);
}

active_of-append :
    (ps : List Project) (id j : String) (body : Json)
    → active_of (ps ++ record { id = id; body = body; active_run = none } ∷ []) j ≡ active_of ps j
active_of-append [] id j body = ground (arith, eq_iff id j)
active_of-append (p ∷ ps) id j body = ground (arith, active_of-append ps id j body, eq_iff p.id j)

active_of-body :
    (ps : List Project) (q j : String) (body : Json)
    → active_of (update (λ p. p.id == q) (λ p. record p { body = body }) ps) j ≡ active_of ps j
active_of-body [] q j body = refl
active_of-body (p ∷ ps) q j body =
    ground (arith, active_of-body ps q j body, eq_iff p.id q, eq_iff p.id j)

-- Rows stay accounted for where every project keeps its active run.
pub IsAccounted-same :
    (ps qs : List Project)
    → ((j : String) → active_of qs j ≡ active_of ps j)
    → (r : Run) → IsAccounted ps r
    → IsAccounted qs r
IsAccounted-same ps qs same r h = record {
  named = h.named;
  active = λ run. same r.project ∙ h.active run;
  leased = h.leased;
  unleased = h.unleased;
  uncancelled = h.uncancelled;
}

fresh-ids :
    (id key : String) (rs : List Run)
    → any (λ q. (q.id == id) || (q.idempotency == key)) rs ≡ false
    → All (λ (q : Run). q.id ≢ id) rs
fresh-ids id key [] h = tt
fresh-ids id key (q ∷ rs) h =
    ((λ e. ground (arith, eq_iff q.id id)), fresh-ids id key rs (ground (arith, eq_iff q.id id)))

pub append-IsSound :
    (r : Run) (d : Db)
    → IsSound d
    → r.id ≢ ""
    → r.status ≡ queued
    → r.lease ≡ none
    → r.cancel_requested ≡ false
    → any (λ q. (q.id == r.id) || (q.idempotency == r.idempotency)) d.runs ≡ false
    → IsSound (record d { runs = d.runs ++ r ∷ [] })
append-IsSound r d h name q l c fresh = record {
  keys =
      Unique-append (λ (r : Run). r.id) d.runs r h.keys (fresh-ids r.id r.idempotency d.runs fresh);
  rows = All-append (IsAccounted d.projects) d.runs (r ∷ []) h.rows (
    record {
      named = name;
      active = λ e. cc;
      leased = λ e. cc;
      unleased = λ _. l;
      uncancelled = λ _. c;
    },
    tt,
  );
}

beating :
    (o : Outside) (ps : List Project) (x : Run)
    → IsAccounted ps x
    → IsAccounted ps (record x { heartbeat = some o.now })
beating o ps x h = record {
  named = h.named;
  active = h.active;
  leased = h.leased;
  unleased = h.unleased;
  uncancelled = h.uncancelled;
}

pub heartbeat_row-IsSound :
    (o : Outside) (run_id : String) (d : Db)
    → IsSound d
    → IsSound (record d {
      runs = update (λ q. q.id == run_id) (λ q. record q { heartbeat = some o.now }) d.runs;
    })
heartbeat_row-IsSound o run_id d h = record {
  keys = Unique-update (λ (r : Run). r.id) _ _ d.runs (λ x. refl) h.keys;
  rows =
      All-update (IsAccounted d.projects) (IsAccounted d.projects) (λ q. q.id == run_id) _ d.runs
        (λ x hx t. beating o d.projects x hx) (λ x hx f. hx) h.rows;
}

pub ensure_row-IsSound :
    (id : String) (body : Json) (d : Db)
    → IsSound d
    → IsSound (record d {
      projects = d.projects ++ record { id = id; body = body; active_run = none } ∷ [];
    })
ensure_row-IsSound id body d h = record {
  keys = h.keys;
  rows =
      All-imp (IsAccounted d.projects) (IsAccounted _) d.runs
        (IsAccounted-same d.projects _ (λ j. active_of-append d.projects id j body)) h.rows;
}

pub update_row-IsSound :
    (id : String) (body : Json) (d : Db)
    → IsSound d
    → IsSound (record d {
      projects = update (λ r. r.id == id) (λ r. record r { body = body }) d.projects;
    })
update_row-IsSound id body d h = record {
  keys = h.keys;
  rows =
      All-imp (IsAccounted d.projects) (IsAccounted _) d.runs
        (IsAccounted-same d.projects _ (λ j. active_of-body d.projects id j body)) h.rows;
}

-- The writes to the other tables.
pub same_rows-IsSound :
    (d e : Db) → e.runs ≡ d.runs → e.projects ≡ d.projects → IsSound d → IsSound e
same_rows-IsSound d e runs projects h = record {
  keys = rw runs h.keys;
  rows = rw (runs, projects) h.rows;
}
