-- ===== src/Runs/Lifecycle/Queue.antt =====
-- The queue of a project's runs: what `claim` answers.
use buffdata.Prelude.{
  String, sort_by, List, insert_by, ◌∷◌, first, All, Option, ◌≡◌, Bool, some, select, any, ltb,
  arith, none, ◌≤◌, [], true, first-All, refl, ◌==◌, false, eq_iff, Bool-cases, string_eq, All-imp,
  inl, sort_by-All, ltb→lt, select-All, inr, select-holds, Option-cases, ◌⊎◌, sym, ◌≢◌, ap, length,
  none-ne-some, some-inj,
}
use buffdata.Runs.Tables.{Outside, Run, Db, has_project, truthy, active_of}
use buffdata.Runs.Lifecycle.{next_queued, claim, claimable, start_run}
use buffdata.Prelude.Exec.{Result}
use buffdata.Runs.Models.{StoreError, running}
use buffdata.Runs.Store.{RunView, run_view}
use mathlib.Core.Path.{subst}

abbrev older : Run → Run → Bool
older a b = ltb a.created b.created

-- The first of a list is no younger than any row of the other.
abbrev IsOldest : List Run → List Run → Type 0
IsOldest [] rs = rs ≡ []
IsOldest (h ∷ t) rs = All (λ (q : Run). h.created ≤ q.created) rs

insert_by-IsOldest :
    (x : Run) (ys rs : List Run) → IsOldest ys rs → IsOldest (insert_by older x ys) (x ∷ rs)
unfolding insert_by
insert_by-IsOldest x [] rs h = rw h (omega arith, tt)
insert_by-IsOldest x (y ∷ ys) rs h = elim (Bool-cases (older y x)) [
  | inl e ↦ rw e (ground (arith, ltb→lt y.created x.created e), h)
  | inr e ↦ rw e (
    omega arith,
    All-imp (λ (q : Run). y.created ≤ q.created) (λ (q : Run). x.created ≤ q.created) rs
        (λ q le. ground (arith, le, e)) h,
  )
]

sort_by-IsOldest : (rs : List Run) → IsOldest (sort_by older rs) rs
unfolding sort_by
sort_by-IsOldest [] = refl
sort_by-IsOldest (x ∷ rs) = insert_by-IsOldest x (sort_by older rs) rs (sort_by-IsOldest rs)

-- The rows of a list that pass a test have a property that is proved of those that passed.
All-select :
    (P : Run → Type 0) (p : Run → Bool) (rs : List Run)
    → All P (select p rs)
    → All (λ q. p q ≡ true → P q) rs
All-select P p [] h = tt
All-select P p (x ∷ rs) h = elim (Bool-cases (p x)) [
  | inl e ↦
      let both : P x × All P (select p rs) = rw e at h in ((λ _. both.0), All-select P p rs both.1)
  | inr e ↦ ((λ t. ground (arith, t, e)), All-select P p rs (rw e at h))
]

cons_not_empty : (rs : List Run) (x : Run) → x ∷ rs ≢ []
cons_not_empty rs x e = ground (arith, ap length e)

none_selected : (p : Run → Bool) (rs : List Run) → select p rs ≡ [] → All (λ q. p q ≡ false) rs
none_selected p [] h = tt
none_selected p (x ∷ rs) h = elim (Bool-cases (p x)) [
  | inl e ↦ absurd (cons_not_empty (select p rs) x (rw e at h))
  | inr e ↦ (e, none_selected p rs (rw e at h))
]

abbrev pub is_row : List Run → Run → Bool
is_row rs r = any (λ q. q.id == r.id) rs

members : (rs : List Run) → All (λ r. is_row rs r ≡ true) rs
members [] = tt
members (x ∷ rs) =
    (ground (arith, eq_iff x.id x.id), All-imp _ _ rs (λ r h. ground (arith, h)) (members rs))

-- What an answer of `claim` says: an error that there is no such project; no run, with the project
-- busy or nothing to claim; or the oldest row that could be claimed, now running under the token.
abbrev pub ClaimAnswers :
    Outside → String → Option String → Db → Result StoreError (Option RunView) × Db → Type 0
ClaimAnswers o project run_id d (Result.err e, d') =
    (has_project d.projects project ≡ false) × (d' ≡ d)
ClaimAnswers o project run_id d (Result.ok none, d') =
    (d' ≡ d)
    × ((truthy (active_of d.projects project) ≡ true)
        ⊎ All (λ q. claimable project run_id q ≡ false) d.runs)
ClaimAnswers o project run_id d (Result.ok (some view), d') =
    (truthy (active_of d.projects project) ≡ false)
    × ((r : Run) × (is_row d.runs r ≡ true)
        × (claimable project run_id r ≡ true)
        × All (λ q. claimable project run_id q ≡ true → r.created ≤ q.created) d.runs
        × (view ≡ record (run_view r) { status = running; lease = some o.token })
        × (d' ≡ start_run o project r.id d))

first_of :
    (rs : List Run) (r : Run) (P : Run → Type 0) → first (λ _. true) rs ≡ some r → All P rs → P r
first_of rs r P e h = (first-All P (λ _. true) rs r h e)

least :
    (ys rs : List Run) (r : Run)
    → IsOldest ys rs
    → first (λ _. true) ys ≡ some r
    → All (λ (q : Run). r.created ≤ q.created) rs
least [] rs r h e = absurd (none-ne-some e)
least (y ∷ ys) rs r h e = subst (λ z. All (λ (q : Run). z.created ≤ q.created) rs) (some-inj e) h

oldest :
    (project : String) (run_id : Option String) (rs : List Run) (r : Run)
    → next_queued project run_id rs ≡ some r
    → (is_row rs r ≡ true)
      × (claimable project run_id r ≡ true)
      × All (λ q. claimable project run_id q ≡ true → r.created ≤ q.created) rs
unfolding next_queued
oldest project run_id rs r e =
    let p = claimable project run_id in
    let found = select p rs in
    (
      first_of (sort_by older found) r (λ q. is_row rs q ≡ true) e
          (sort_by-All older (λ q. is_row rs q ≡ true) found
            (select-All (λ q. is_row rs q ≡ true) p rs (members rs))),
      first_of (sort_by older found) r (λ q. p q ≡ true) e
          (sort_by-All older (λ q. p q ≡ true) found (select-holds p rs)),
      All-select (λ q. r.created ≤ q.created) p rs
          (least (sort_by older found) found r (sort_by-IsOldest found) e),
    )

empty_sort : (ys rs : List Run) → IsOldest ys rs → first (λ _. true) ys ≡ none → rs ≡ []
empty_sort [] rs h e = h
empty_sort (y ∷ ys) rs h e = absurd (none-ne-some (sym e))

nothing :
    (project : String) (run_id : Option String) (rs : List Run)
    → next_queued project run_id rs ≡ none
    → All (λ q. claimable project run_id q ≡ false) rs
unfolding next_queued
nothing project run_id rs e = none_selected (claimable project run_id) rs (
    empty_sort (sort_by older (select (claimable project run_id) rs))
      (select (claimable project run_id) rs)
      (sort_by-IsOldest (select (claimable project run_id) rs)) e)

pub claim-ClaimAnswers :
    (o : Outside) (project : String) (run_id : Option String) (d : Db)
    → ClaimAnswers o project run_id d (claim o project run_id d)
unfolding claim
claim-ClaimAnswers o project run_id d = elim (Bool-cases (has_project d.projects project)) [
  | inr e ↦ rw e (e, refl)
  | inl e ↦ elim (Bool-cases (truthy (active_of d.projects project))) [
    | inl busy ↦ rw (e, busy) (refl, inl busy)
    | inr idle ↦ elim (Option-cases (next_queued project run_id d.runs)) [
      | inl n ↦ rw (e, idle, n) (refl, inr (nothing project run_id d.runs n))
      | inr (r, f) ↦
          let h = oldest project run_id d.runs r f in
          rw (e, idle, f) (idle, (r, h.0, h.1, h.2, refl, refl))
    ]
  ]
]
