-- ===== src/Runs/Service/Lineage/Ancestors.antt =====
-- What the walk to the ancestors of a run lists.
use buffdata.Prelude.{
  [], none, some, true, false, zero, suc, refl, ℕ, String, List, ◌∷◌, contains, ◌≡◌, first,
  string_eq, arith, ◌<◌, none-ne-some, Option, Option-cases, ◌⊎◌, inl, if_cases, inr, ◌==◌, ◌||◌,
  length, Bool-cases, map, length-map,
}
use buffdata.Runs.Tables.{Run, Db, truthy}
use buffdata.Runs.Store.{is_run, get, RunView}
use buffdata.Runs.Service.Lineage.{Summary, ancestors}
use buffdata.Runs.Service.Lineage.{Walk, run_of, with_ancestor, climb, step_up, step_to, summary}
use buffdata.Prelude.Exec.{err, ok, Result}
use buffdata.Runs.Models.{StoreError}
use buffdata.Runs.Service.Lineage.Unseen.{unseen, unseen_all, unseen_fewer}

first-contains :
    (project p : String) (rs : List Run) (r : Run)
    → first (is_run project p) rs ≡ some r
    → contains p (map (λ r. r.id) rs) ≡ true
first-contains project p [] r found = absurd (none-ne-some found)
first-contains project p (q ∷ rs) r found = ground (arith, found, first-contains project p rs r)

-- The summaries are those of the parent, its parent and so on, none of them of a run seen before; the
-- last has no parent, or its parent is one that was seen.
abbrev pub Ancestry : String → Db → List String → String → List Summary → Type 0
Ancestry project s seen current [] =
    (v : RunView) × (run_of project s current ≡ ok v)
    × ((truthy v.body.parent_run_id ≡ false)
        ⊎ ((p : String) × (v.body.parent_run_id ≡ some p) × (contains p seen ≡ true)))
Ancestry project s seen current (x ∷ xs) =
    (v : RunView) × (p : String) × (w : RunView) × (run_of project s current ≡ ok v)
    × (v.body.parent_run_id ≡ some p)
    × (contains p seen ≡ false)
    × (run_of project s p ≡ ok w)
    × (x ≡ summary w)
    × Ancestry project s (p ∷ seen) p xs

-- The walk goes from the run to its parent, the parent's parent and so on, none of them seen before, and
-- comes to a parent that the tables have no run for: looking it up is the error.
pub data Broken (project : String) (s : Db) (e : StoreError) : List String → String → Type 0 where
  missing :
      (seen : List String) (current p : String) (v : RunView)
      → run_of project s current ≡ ok v
      → v.body.parent_run_id ≡ some p
      → (p == "") ≡ false
      → contains p seen ≡ false
      → run_of project s p ≡ err e
      → Broken project s e seen current
  further :
      (seen : List String) (current p : String) (v w : RunView)
      → run_of project s current ≡ ok v
      → v.body.parent_run_id ≡ some p
      → (p == "") ≡ false
      → contains p seen ≡ false
      → run_of project s p ≡ ok w
      → Broken project s e (p ∷ seen) p
      → Broken project s e seen current

-- The walk ended: with such a list, or where a parent that it came to is missing.
abbrev pub Ends : String → Db → List String → String → Walk → Type 0
Ends project s seen current none = ⊥
Ends project s seen current (some (err e)) = Broken project s e seen current
Ends project s seen current (some (ok xs)) = Ancestry project s seen current xs

err-ne-ok : {e : StoreError} {v : RunView} → err e ≡ ok v → ⊥
err-ne-ok h = cc

run_of-first :
    (project : String) (s : Db) (p : String) (v : RunView)
    → run_of project s p ≡ ok v
    → (r : Run) × (first (is_run project p) s.runs ≡ some r)
unfolding get
run_of-first project s p v h = elim (Option-cases (first (is_run project p) s.runs)) [
  | inl e ↦ absurd (err-ne-ok (rw (run_of, e) at h))
  | inr found ↦ found
]

with_ancestor-Ends :
    (project : String) (s : Db) (seen : List String) (current p : String) (v w : RunView)
    → run_of project s current ≡ ok v
    → v.body.parent_run_id ≡ some p
    → (p == "") ≡ false
    → contains p seen ≡ false
    → run_of project s p ≡ ok w
    → (walk : Walk) → Ends project s (p ∷ seen) p walk
    → Ends project s seen current (with_ancestor w walk)
with_ancestor-Ends project s seen current p v w here up named fresh there none h = h
with_ancestor-Ends project s seen current p v w here up named fresh there (some (err e)) h =
    Broken.further seen current p v w here up named fresh there h
with_ancestor-Ends project s seen current p v w here up named fresh there (some (ok xs)) h =
    (v, p, w, here, up, fresh, there, refl, h)

step_to-Ends :
    (project : String) (s : Db) (seen : List String) (current p : String) (v : RunView)
    → run_of project s current ≡ ok v
    → v.body.parent_run_id ≡ some p
    → (p == "") ≡ false
    → contains p seen ≡ false
    → (walk : Walk) → ((w : RunView) → run_of project s p ≡ ok w → Ends project s (p ∷ seen) p walk)
    → (r : Result StoreError RunView) → run_of project s p ≡ r
    → Ends project s seen current (step_to r walk)
step_to-Ends project s seen current p v here up named fresh walk h (err e) there =
    Broken.missing seen current p v here up named fresh there
step_to-Ends project s seen current p v here up named fresh walk h (ok w) there =
    with_ancestor-Ends project s seen current p v w here up named fresh there walk (h w there)

stop_reason :
    (seen : List String) (p : String)
    → (p == "") || contains p seen ≡ true
    → (parent : Option String) → parent ≡ some p
    → (truthy parent ≡ false) ⊎ ((p : String) × (parent ≡ some p) × (contains p seen ≡ true))
stop_reason seen p h parent up = elim (Bool-cases (p == "")) [
  | inl e ↦ inl (rw (up, e) refl)
  | inr e ↦ inr (p, up, ground (arith, h, e))
]

step_up-Ends :
    (project : String) (s : Db) (seen : List String) (current : String) (v : RunView)
    → run_of project s current ≡ ok v
    → (go_on : String → Walk)
    → ((p : String) (w : RunView)
        → contains p seen ≡ false
        → run_of project s p ≡ ok w
        → Ends project s (p ∷ seen) p (go_on p))
    → (parent : Option String) → v.body.parent_run_id ≡ parent
    → Ends project s seen current (step_up project s seen go_on parent)
step_up-Ends project s seen current v here go_on h none up = (v, here, inl (rw up refl))
step_up-Ends project s seen current v here go_on h (some p) up =
    if_cases (Ends project s seen current) ((p == "") || contains p seen) _ _
      (λ e. (v, here, stop_reason seen p e v.body.parent_run_id up))
      (λ e.
        step_to-Ends project s seen current p v here up (ground (arith, e)) (ground (arith, e))
          (go_on p) (λ w there. h p w (ground (arith, e)) there) (run_of project s p) refl)

climb-Ends :
    (project : String) (s : Db) (n : ℕ) (seen : List String) (current : String) (v : RunView)
    → run_of project s current ≡ ok v
    → unseen (map (λ r. r.id) s.runs) seen < n
    → Ends project s seen current (climb project s n seen current)
climb-Ends project s zero seen current v here few = absurd (ground (arith, few))
climb-Ends project s (suc n) seen current v here few = rw here (
    step_up-Ends project s seen current v here (λ parent. climb project s n (parent ∷ seen) parent)
      (λ p w fresh there.
        climb-Ends project s n (p ∷ seen) p w there
          let (r, found) = run_of-first project s p w there in
            ground (
              arith,
              few,
              unseen_fewer (map (λ r. r.id) s.runs) seen p fresh
                  (first-contains project p s.runs r found),
            ))
      v.body.parent_run_id refl)

pub ancestors-Ends :
    (project run_id : String) (s : Db) (v : RunView)
    → run_of project s run_id ≡ ok v
    → Ends project s (run_id ∷ []) run_id (ancestors project run_id s)
unfolding ancestors
ancestors-Ends project run_id s v here =
    climb-Ends project s (suc (length s.runs)) (run_id ∷ []) run_id v here (
      ground
        (arith, unseen_all (map (λ r. r.id) s.runs) (run_id ∷ []), length-map (λ r. r.id) s.runs))
