-- ===== src/Runs/Service/Lineage/Visit.antt =====
-- One round of the search for descendants: the children of a frontier, and which of them are new.
use buffdata.Prelude.{
  [], true, false, refl, String, List, contains, ◌∷◌, ◌≡◌, Bool-cases, ◌||◌, inl, arith, string_eq,
  inr, ◌++◌, ◌==◌, map, length, any-append, eq_iff, ◌+◌, sym, ◌≤◌,
}
use buffdata.Runs.Store.{RunView}
use buffdata.Runs.Service.Lineage.{visit, children_of, all_children, is_child}
use mathlib.Core.Path.{subst}
use buffdata.Runs.Service.Lineage.Unseen.{unseen, unseen_fewer}

-- A run whose chain of parents, among the rows that are read, leads to `root`.
pub data Descends (recent : List RunView) (root : String) : String → Type 0 where
  start : Descends recent root root
  child :
      (parent : String) (id : String)
      → Descends recent root parent
      → contains id (children_of recent parent) ≡ true
      → Descends recent root id

-- Each identifier is new when its turn comes.
abbrev pub Fresh : List String → List String → Type 0
Fresh seen [] = Unit
Fresh seen (x ∷ xs) = (contains x seen ≡ false) × Fresh (x ∷ seen) xs

-- `seen'` holds what `seen` and `new` hold, and nothing else.
abbrev pub Joins : List String → List String → List String → Type 0
Joins seen new seen' = (id : String) → contains id seen' ≡ (contains id new || contains id seen)

contains_eq :
    (c id : String) (seen : List String)
    → c == id ≡ true
    → contains c seen ≡ true
    → contains id seen ≡ true
contains_eq c id seen same h = rw ((eq_iff c id).0 same) at h

pub visit-Joins : (cs seen : List String) → Joins seen (visit cs seen).0 (visit cs seen).1
visit-Joins [] seen id = refl
visit-Joins (c ∷ cs) seen id = elim (Bool-cases (contains c seen)) [
  | inl e ↦ rw e (visit-Joins cs seen id)
  | inr e ↦ rw e (ground (arith, visit-Joins cs (c ∷ seen) id))
]

pub visit-finds :
    (cs seen : List String) (id : String)
    → contains id cs ≡ true
    → contains id (visit cs seen).1 ≡ true
visit-finds [] seen id h = ground (arith, h)
visit-finds (c ∷ cs) seen id h = elim (Bool-cases (contains c seen)) [
  | inl e ↦
      rw e
        (ground (arith, h, visit-Joins cs seen id, visit-finds cs seen id, contains_eq c id seen))
  | inr e ↦ rw e (ground (arith, h, visit-Joins cs (c ∷ seen) id, visit-finds cs (c ∷ seen) id))
]

pub visit-Fresh : (cs seen : List String) → Fresh seen (visit cs seen).0
visit-Fresh [] seen = tt
visit-Fresh (c ∷ cs) seen = elim (Bool-cases (contains c seen)) [
  | inl e ↦ rw e (visit-Fresh cs seen)
  | inr e ↦ rw e (e, visit-Fresh cs (c ∷ seen))
]

pub visit-from :
    (cs seen : List String) (id : String)
    → contains id (visit cs seen).0 ≡ true
    → contains id cs ≡ true
visit-from [] seen id h = ground (arith, h)
visit-from (c ∷ cs) seen id h = elim (Bool-cases (contains c seen)) [
  | inl e ↦ ground (arith, e, h, visit-from cs seen id)
  | inr e ↦ ground (arith, e, h, visit-from cs (c ∷ seen) id)
]

pub visit-unseen :
    (ids cs seen : List String)
    → ((c : String) → contains c cs ≡ true → contains c ids ≡ true)
    → length (visit cs seen).0 + unseen ids (visit cs seen).1 ≤ unseen ids seen
visit-unseen ids [] seen h = ground arith
visit-unseen ids (c ∷ cs) seen h = elim (Bool-cases (contains c seen)) [
  | inl e ↦ rw e (visit-unseen ids cs seen (λ d k. h d (ground (arith, k))))
  | inr e ↦ rw e (
      ground (
        arith,
        visit-unseen ids cs (c ∷ seen) (λ d k. h d (ground (arith, k))),
        unseen_fewer ids seen c e (h c (ground (arith, eq_iff c c))),
      ))
]

pub children_of-contains :
    (recent : List RunView) (parent id : String)
    → contains id (children_of recent parent) ≡ true
    → contains id (map (λ v. v.body.id) recent) ≡ true
children_of-contains [] parent id h = h
children_of-contains (v ∷ vs) parent id h = elim (Bool-cases (is_child parent v)) [
  | inl e ↦ ground (arith, rw e at h, children_of-contains vs parent id)
  | inr e ↦ ground (arith, children_of-contains vs parent id (rw e at h))
]

pub contains-append :
    (id : String) (xs ys : List String)
    → contains id (xs ++ ys) ≡ (contains id xs || contains id ys)
contains-append id xs ys = any-append (λ x. x == id) xs ys

pub all_children-parent :
    (recent : List RunView) (frontier : List String) (id : String)
    → contains id (all_children recent frontier) ≡ true
    → (p : String) × (contains p frontier ≡ true) × (contains id (children_of recent p) ≡ true)
all_children-parent recent [] id h = ground (arith, h)
all_children-parent recent (x ∷ xs) id h = elim (Bool-cases (contains id (children_of recent x))) [
  | inl e ↦ (x, ground (arith, eq_iff x x), e)
  | inr e ↦
      let (p, there, k) = all_children-parent recent xs id (
        ground (arith, e, h, contains-append id (children_of recent x) (all_children recent xs))) in
      (p, ground (arith, there), k)
]

pub all_children-contains :
    (recent : List RunView) (frontier : List String) (p id : String)
    → contains p frontier ≡ true
    → contains id (children_of recent p) ≡ true
    → contains id (all_children recent frontier) ≡ true
all_children-contains recent [] p id here h = ground (arith, here)
all_children-contains recent (x ∷ xs) p id here h = elim (Bool-cases (x == p)) [
  | inl e ↦ ground (
    arith,
    contains-append id (children_of recent x) (all_children recent xs),
    subst (λ q. contains id (children_of recent q) ≡ true) (sym ((eq_iff x p).0 e)) h,
  )
  | inr e ↦ ground (
    arith,
    contains-append id (children_of recent x) (all_children recent xs),
    all_children-contains recent xs p id (ground (arith, e, here)) h,
  )
]
