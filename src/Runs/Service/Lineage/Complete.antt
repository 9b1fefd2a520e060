-- ===== src/Runs/Service/Lineage/Complete.antt =====
-- What `lineage` answers.
use buffdata.Prelude.{[], none, some, refl, String, Option, List, ◌∷◌, ◌≡◌, map, ◌⊎◌, inr, inl}
use buffdata.Runs.Service.Lineage.{
  lineage, Walk, run_of, Lineage, after_get, listed, lineage_of, ancestors, descendants, summary_of,
  by_id,
}
use buffdata.Runs.Tables.{Db}
use buffdata.Prelude.Exec.{Result, err, ok}
use buffdata.Runs.Models.{StoreError}
use buffdata.Runs.Service.Lineage.Ancestors.{Ends, Ancestry, ancestors-Ends, Broken}
use buffdata.Runs.Store.{RunView, list}
use buffdata.Runs.Service.Lineage.Descendants.{Complete, descendants-Complete}

-- The answer is there. It is an error only where the run is missing, or a parent that the walk up from it
-- comes to; otherwise it has the ancestors of the run, and the summary of each descendant among the runs
-- that are read.
abbrev pub LineageSays : String → String → Db → Option (Result StoreError Lineage) → Type 0
LineageSays project run_id s none = ⊥
LineageSays project run_id s (some (err e)) =
    (run_of project s run_id ≡ err e) ⊎ Broken project s e (run_id ∷ []) run_id
LineageSays project run_id s (some (ok l)) =
    let recent = listed (list project 1000 s).0 in
    (ids : List String) × Ancestry project s (run_id ∷ []) run_id l.ancestors
    × Complete recent run_id (some ids)
    × (l.descendants ≡ map (λ id. summary_of (by_id recent id)) ids)

lineage_of-LineageSays :
    (project run_id : String) (s : Db) (walk : Walk) (found : Option (List String))
    → Ends project s (run_id ∷ []) run_id walk
    → Complete (listed (list project 1000 s).0) run_id found
    → LineageSays project run_id s (lineage_of (listed (list project 1000 s).0) run_id walk found)
lineage_of-LineageSays project run_id s none found up down = up
lineage_of-LineageSays project run_id s (some (err e)) found up down = inr up
lineage_of-LineageSays project run_id s (some (ok xs)) none up down = down
lineage_of-LineageSays project run_id s (some (ok xs)) (some ids) up down = (ids, up, down, refl)

after_get-LineageSays :
    (project run_id : String) (s : Db) (r : Result StoreError RunView)
    → run_of project s run_id ≡ r
    → LineageSays project run_id s (after_get project run_id s r)
after_get-LineageSays project run_id s (err e) h = inl h
after_get-LineageSays project run_id s (ok v) h =
    let recent = listed (list project 1000 s).0 in
    lineage_of-LineageSays project run_id s (ancestors project run_id s) (descendants recent run_id)
      (ancestors-Ends project run_id s v h) (descendants-Complete recent run_id)

-- `lineage` answers, whatever cycles the parent links have. It raises only where the run, or an unseen parent
-- that the walk up from it comes to, is not in the project, and then it raises what the look at that run
-- raised. Its ancestors are the parent of the run, the parent's parent and so on, none of them twice, up to a
-- run without a parent or with one that was seen. Its descendants are the runs that descend from it among
-- the thousand most recent, all of these, each once, and never the run.
pub lineage-LineageSays :
    (project run_id : String) (s : Db) → LineageSays project run_id s (lineage project run_id s)
unfolding lineage
lineage-LineageSays project run_id s =
    after_get-LineageSays project run_id s (run_of project s run_id) refl
