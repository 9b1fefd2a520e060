-- ===== src/Runs/Service/Lineage.antt =====
-- buffdata/runs/service.py: `lineage`, the ancestors of a run and the runs that descend from it.
-- Both loops are recursive on fuel; `none` says that it ran out.
pub mod Ancestors
mod Visit
pub mod Descendants
mod Unseen
pub mod Complete
pub mod Examples
use buffdata.Prelude.{
  [], none, some, true, false, zero, suc, refl, ℕ, String, List, Option, Bool, ◌∷◌, ◌++◌, map,
  length, select, if◌then◌else◌, ◌&&◌, ◌==◌, contains, string_eq, ◌||◌, option_eq,
}
use buffdata.Runs.Store.{RunView, get, list}
use buffdata.Prelude.Exec.{Result, ok, err}
use buffdata.Runs.Tables.{Db, truthy}
use buffdata.Runs.Models.{RunStatus, StoreError}

pub record Summary : Type 0 where
  pub run_id : String
  pub status : RunStatus
  pub created_at : String
  pub parent_run_id : Option String

abbrev pub summary : RunView → Summary
summary v = record {
  run_id = v.body.id;
  status = v.status;
  created_at = v.body.created_at;
  parent_run_id = v.body.parent_run_id;
}

-- `self.store.get`, which leaves the tables as they are.
abbrev pub run_of : String → Db → String → Result StoreError RunView
run_of project s run_id = (get project run_id s).0

abbrev pub Walk : Type 0
Walk = Option (Result StoreError (List Summary))

abbrev pub with_ancestor : RunView → Walk → Walk
with_ancestor v none = none
with_ancestor v (some (err e)) = some (err e)
with_ancestor v (some (ok xs)) = some (ok (summary v ∷ xs))

-- A step to a parent that is not seen yet; `go_on` is the rest of the loop.
abbrev pub step_to : Result StoreError RunView → Walk → Walk
step_to (err e) go_on = some (err e)
step_to (ok v) go_on = with_ancestor v go_on

abbrev pub step_up : String → Db → List String → (String → Walk) → Option String → Walk
step_up project s seen go_on none = some (ok [])
step_up project s seen go_on (some parent) =
    if (parent == "") || contains parent seen
    then some (ok [])
    else step_to (run_of project s parent) (go_on parent)

abbrev pub from_run : String → Db → List String → (String → Walk) → Result StoreError RunView → Walk
from_run project s seen go_on (err e) = some (err e)
from_run project s seen go_on (ok v) = step_up project s seen go_on v.body.parent_run_id

-- The loop `while True`.
abbrev pub climb : String → Db → ℕ → List String → String → Walk
climb project s zero seen current = none
climb project s (suc n) seen current =
    from_run project s seen (λ parent. climb project s n (parent ∷ seen) parent)
      (run_of project s current)

-- One round for each run of the tables, and one to stop in.
unfoldable pub ancestors : String → String → Db → Walk
ancestors project run_id s = climb project s (suc (length s.runs)) (run_id ∷ []) run_id

-- `children_of.get(parent_id, ())`
abbrev pub is_child : String → RunView → Bool
is_child parent v = truthy v.body.parent_run_id && (v.body.parent_run_id == some parent)

abbrev pub children_of : List RunView → String → List String
children_of recent parent = map (λ v. v.body.id) (select (is_child parent) recent)

abbrev pub all_children : List RunView → List String → List String
all_children recent [] = []
all_children recent (parent ∷ frontier) = children_of recent parent ++ all_children recent frontier

-- The two inner loops: the children that were not seen, and what has been seen after them.
abbrev pub visit : List String → List String → List String × List String
visit [] seen = ([], seen)
visit (c ∷ cs) seen =
    let rest = visit cs (if contains c seen then seen else c ∷ seen) in
    if contains c seen then rest else (c ∷ rest.0, rest.1)

abbrev pub with_round : List String → Option (List String) → Option (List String)
with_round new none = none
with_round new (some more) = some (new ++ more)

-- The loop `while frontier`.
abbrev pub descend : List RunView → ℕ → List String → List String → Option (List String)
descend recent n [] seen = some []
descend recent zero (x ∷ frontier) seen = none
descend recent (suc n) (x ∷ frontier) seen =
    let round = visit (all_children recent (x ∷ frontier)) seen in
    with_round round.0 (descend recent n round.0 round.1)

-- The identifiers of the descendants, in the order found.
unfoldable pub descendants : List RunView → String → Option (List String)
descendants recent run_id = descend recent (suc (length recent)) (run_id ∷ []) (run_id ∷ [])

-- `by_id[child_id]`: of two rows with one identifier the last one stays.
abbrev pub by_id : List RunView → String → Option RunView
by_id [] run_id = none
by_id (v ∷ vs) run_id = elim (by_id vs run_id) [
  | some w ↦ some w
  | none ↦ if v.body.id == run_id then some v else none
]

abbrev pub summary_of : Option RunView → Option Summary
summary_of none = none
summary_of (some v) = some (summary v)

pub record Lineage : Type 0 where
  pub run_id : String
  pub ancestors : List Summary
  pub descendants : List (Option Summary)

abbrev pub lineage_of :
    List RunView → String → Walk → Option (List String) → Option (Result StoreError Lineage)
lineage_of recent run_id none ids = none
lineage_of recent run_id (some (err e)) ids = some (err e)
lineage_of recent run_id (some (ok up)) none = none
lineage_of recent run_id (some (ok up)) (some ids) = some (
    ok (record {
      run_id = run_id;
      ancestors = up;
      descendants = map (λ id. summary_of (by_id recent id)) ids;
    }))

abbrev pub listed : Result StoreError (List RunView) → List RunView
listed (err e) = []
listed (ok vs) = vs

abbrev pub after_get :
    String → String → Db → Result StoreError RunView → Option (Result StoreError Lineage)
after_get project run_id s (err e) = some (err e)
after_get project run_id s (ok v) =
    let recent = listed (list project 1000 s).0 in
    lineage_of recent run_id (ancestors project run_id s) (descendants recent run_id)

-- `lineage`
unfoldable pub lineage : String → String → Db → Option (Result StoreError Lineage)
lineage project run_id s = after_get project run_id s (run_of project s run_id)
