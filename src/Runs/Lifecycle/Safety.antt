-- ===== src/Runs/Lifecycle/Safety.antt =====
-- What the sound tables promise: mutual exclusion in a project, and the finality of ended runs.
use buffdata.Prelude.{
  String, List, All, Bool, Option, ◌==◌, Unique, first, ◌≡◌, ◌&&◌, length, true, some, select,
  string_eq, ◌≤◌, arith, All-imp, ◌∷◌, eq_iff, [], ◌≢◌, Bool-cases, ◌++◌, inl, refl, update, false,
  ◌∙◌, inr, first-All, first-holds, sym, ap,
}
use buffdata.Runs.Lifecycle.Reach.{
  Call, IsNamed, perform_all, no_tables, perform_all-IsSound, perform_all-keeps,
}
use buffdata.Runs.Tables.{Run, Project, Db, active_of}
use buffdata.Runs.Lifecycle.Invariant.{IsSound, IsAccounted, IsRow}
use buffdata.Runs.Models.{running, status_eq}
use buffdata.Runs.Lifecycle.{is_terminal, start_run, end_run, request_cancel}
use buffdata.Runs.Lifecycle.Kept.{IsKept, IsSound-IsKept}

abbrev pub is_running_in : String → Run → Bool
is_running_in project r = (r.project == project) && (r.status == running)

none_left :
    (rs : List Run) (p : Run → Bool) (a : Option String) (k : String)
    → All (λ (y : Run). y.id ≢ k) rs
    → All (λ r. p r ≡ true → a ≡ some r.id) rs
    → a ≡ some k
    → length (select p rs) ≡ 0
none_left [] p a k fresh h e = refl
none_left (r ∷ rs) p a k fresh h e = ground (arith, fresh.0, h.0, none_left rs p a k fresh.1 h.1 e)

-- Rows that share their id, in a table whose ids are unique, are at most one.
at_most_one :
    (rs : List Run) (p : Run → Bool) (a : Option String)
    → Unique (λ (r : Run). r.id) rs
    → All (λ r. p r ≡ true → a ≡ some r.id) rs
    → length (select p rs) ≤ 1
at_most_one [] p a u h = omega arith
at_most_one (r ∷ rs) p a u h = elim (Bool-cases (p r)) [
  | inl t ↦ rw t (omega (arith, none_left rs p a r.id u.0 h.1 (h.0 t)))
  | inr f ↦ rw f (at_most_one rs p a u.1 h.1)
]

running_rows :
    (project : String) (ps : List Project) (rs : List Run)
    → All (IsAccounted ps) rs
    → All (λ r. is_running_in project r ≡ true → active_of ps project ≡ some r.id) rs
running_rows project ps rs h =
    All-imp (IsAccounted ps) _ rs (λ r a t. ground (arith, a.active, eq_iff r.project project)) h

-- After any calls, in any order, whose submitted ids are no empty texts, from empty tables on, a
-- project has at most one running run.
pub one_running_run :
    (cs : List Call) (project : String)
    → All IsNamed cs
    → length (select (is_running_in project) (perform_all cs no_tables).runs) ≤ 1
one_running_run cs project named =
    let h = perform_all-IsSound cs named in
    let d = perform_all cs no_tables in
    at_most_one d.runs (is_running_in project) (active_of d.projects project) h.keys
      (running_rows project d.projects d.runs h.rows)

-- A run that has ended, and its row.
pub record IsEnded (id : String) (r : Run) (d : Db) : Type 0 where
  pub sound : IsSound d
  pub row : first (λ q. q.id == id) d.runs ≡ some r
  pub over : is_terminal r.status ≡ true

first-update_ne :
    (f : Run → Run) (id k : String) (rs : List Run)
    → ((x : Run) → (f x).id ≡ x.id)
    → k ≢ id
    → first (λ (q : Run). q.id == id) (update (λ (q : Run). q.id == k) f rs)
      ≡ first (λ (q : Run). q.id == id) rs
first-update_ne f id k [] same ne = refl
first-update_ne f id k (x ∷ xs) same ne = ground (
  arith,
  same x,
  eq_iff x.id k,
  eq_iff x.id id,
  eq_iff (f x).id id,
  first-update_ne f id k xs same ne,
)

first-append :
    (id : String) (rs : List Run) (y r : Run)
    → first (λ (q : Run). q.id == id) rs ≡ some r
    → first (λ (q : Run). q.id == id) (rs ++ y ∷ []) ≡ some r
first-append id [] y r h = cc
first-append id (x ∷ xs) y r h = ground (arith, first-append id xs y r)

-- A row that has not ended is another row.
other_row :
    (id : String) (r x : Run) (d : Db)
    → IsEnded id r d
    → IsRow d x
    → is_terminal x.status ≡ false
    → x.id ≢ id
other_row id r x d h row live e =
    let same = first-All (λ q. q.id ≡ x.id → q ≡ x) (λ q. q.id == id) d.runs r row.only h.row in
    let named = (eq_iff r.id id).0 (first-holds (λ q. q.id == id) d.runs r h.row) in
    let equal = same (named ∙ sym e) in ground (arith, h.over, ap (λ (q : Run). q.status) equal)

module _ (id : String) (r : Run) where
  IsEnded-after :
      (d e : Db) (x : Run) (f : Run → Run)
      → IsEnded id r d
      → IsSound e
      → IsRow d x
      → is_terminal x.status ≡ false
      → ((q : Run) → (f q).id ≡ q.id)
      → e.runs ≡ update (λ q. q.id == x.id) f d.runs
      → IsEnded id r e
  IsEnded-after d e x f h sound row live same runs = record {
    sound = sound;
    row = rw runs (first-update_ne f id x.id d.runs same (other_row id r x d h row live) ∙ h.row);
    over = h.over;
  }

  IsEnded-same : (d e : Db) → IsEnded id r d → IsSound e → e.runs ≡ d.runs → IsEnded id r e
  IsEnded-same d e h sound runs = record { sound = sound; row = rw runs h.row; over = h.over }

  IsEnded-IsKept : IsKept (IsEnded id r)
  unfolding start_run end_run request_cancel
  IsEnded-IsKept = record {
    sound = λ d h. h.sound;
    start = λ o p x d h row e q has idle.
        IsEnded-after d _ x _ h (IsSound-IsKept.start o p x d h.sound row e q has idle) row
          (rw q refl) (λ _. refl) refl;
    end = λ o p s m err x d h row e run t.
        IsEnded-after d _ x _ h (IsSound-IsKept.end o p s m err x d h.sound row e run t) row
          (rw run refl) (λ _. refl) refl;
    stop = λ o p a x d h row live.
        IsEnded-after d _ x _ h (IsSound-IsKept.stop o p a x d h.sound row live) row (ground arith)
          (λ _. refl) refl;
    beat = λ o x d h row run.
        IsEnded-after d _ x _ h (IsSound-IsKept.beat o x d h.sound row run) row (rw run refl)
          (λ _. refl) refl;
    add = λ x d h n q l c fresh. record {
      sound = IsSound-IsKept.add x d h.sound n q l c fresh;
      row = first-append id d.runs x r h.row;
      over = h.over;
    };
    ensure = λ i b d h. IsEnded-same d _ h (IsSound-IsKept.ensure i b d h.sound) refl;
    configure = λ i b d h. IsEnded-same d _ h (IsSound-IsKept.configure i b d h.sound) refl;
    elsewhere = λ d e runs projects h.
        IsEnded-same d e h (IsSound-IsKept.elsewhere d e runs projects h.sound) runs;
  }

-- A run that has ended after some calls from empty tables on has the same row after any later calls,
-- where the submitted ids are no empty texts.
pub ended_runs_stay :
    (before after : List Call) (id : String) (r : Run)
    → All IsNamed before
    → All IsNamed after
    → first (λ q. q.id == id) (perform_all before no_tables).runs ≡ some r
    → is_terminal r.status ≡ true
    → first (λ q. q.id == id) (perform_all after (perform_all before no_tables)).runs ≡ some r
ended_runs_stay before after id r nb na found over =
    (perform_all-keeps (IsEnded id r) (IsEnded-IsKept id r) after (perform_all before no_tables) na
      (record { sound = perform_all-IsSound before nb; row = found; over = over })).row
