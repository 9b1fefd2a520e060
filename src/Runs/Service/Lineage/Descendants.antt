-- ===== src/Runs/Service/Lineage/Descendants.antt =====
-- The runs that descend from a run.
use buffdata.Prelude.{
  [], true, false, refl, String, List, contains, ◌∷◌, ◌≡◌, Bool-cases, ◌||◌, inl, arith, string_eq,
  inr, ◌++◌, ◌==◌, map, length, eq_iff, ℕ, ◌∙◌, Option, is_empty, some, none, ◌↔◌, ◌<◌, suc, zero,
  length-map,
}
use buffdata.Runs.Store.{RunView}
use buffdata.Runs.Service.Lineage.{
  visit, children_of, all_children, with_round, descend, descendants,
}
use mathlib.Core.Path.{subst}
use buffdata.Runs.Service.Lineage.Unseen.{unseen, unseen_all}
use buffdata.Runs.Service.Lineage.Visit.{
  visit-Joins, Fresh, Joins, all_children-parent, Descends, contains-append, visit-from, child,
  start, visit-finds, children_of-contains, visit-Fresh, visit-unseen, all_children-contains,
}

Fresh-ext :
    (s t xs : List String)
    → ((id : String) → contains id t ≡ contains id s)
    → Fresh s xs
    → Fresh t xs
Fresh-ext s t [] same h = tt
Fresh-ext s t (x ∷ xs) same h =
    (same x ∙ h.0, Fresh-ext (x ∷ s) (x ∷ t) xs (λ id. ground (arith, same id)) h.1)

Fresh-append :
    (new more seen seen' : List String)
    → Joins seen new seen'
    → Fresh seen new
    → Fresh seen' more
    → Fresh seen (new ++ more)
Fresh-append [] more seen seen' joins h k =
    Fresh-ext seen' seen more (λ id. ground (arith, joins id)) k
Fresh-append (x ∷ new) more seen seen' joins h k =
    (h.0, Fresh-append new more (x ∷ seen) seen' (λ id. ground (arith, joins id)) h.1 k)

is_empty-length : (xs : List String) → is_empty xs ≡ false → 0 < length xs
is_empty-length [] h = ground (arith, h)
is_empty-length (x ∷ xs) h = ground arith

module _ (recent : List RunView) (root : String) where
  abbrev Closed : List String → List String → Type 0
  Closed seen frontier =
      (p id : String)
      → contains p seen ≡ true
      → contains id (children_of recent p) ≡ true
      → contains id seen || contains p frontier ≡ true

  -- What the rest of the search finds when `seen` has been seen before.
  abbrev Found : List String → Option (List String) → Type 0
  Found seen none = ⊥
  Found seen (some ids) =
      Fresh seen ids
      × ((id : String) → contains id ids ≡ true → Descends recent root id)
      × ((p id : String)
          → contains p ids || contains p seen ≡ true
          → contains id (children_of recent p) ≡ true
          → contains id ids || contains id seen ≡ true)

  with_round-Found :
      (new seen seen' : List String)
      → Joins seen new seen'
      → Fresh seen new
      → ((id : String) → contains id new ≡ true → Descends recent root id)
      → (more : Option (List String)) → Found seen' more
      → Found seen (with_round new more)
  with_round-Found new seen seen' joins fresh new_ones none h = h
  with_round-Found new seen seen' joins fresh new_ones (some ids) (f, d, c) = (
    Fresh-append new ids seen seen' joins fresh f,
    (λ id h. elim (Bool-cases (contains id new)) [
      | inl e ↦ new_ones id e
      | inr e ↦ d id (ground (arith, h, e, contains-append id new ids))
    ]),
    λ p id h k. ground (
      arith,
      joins p,
      joins id,
      contains-append p new ids,
      contains-append id new ids,
      h,
      c p id,
      k,
    ),
  )

  round-Closed :
      (frontier seen : List String)
      → Closed seen frontier
      → Closed
          (visit (all_children recent frontier) seen).1
          (visit (all_children recent frontier) seen).0
  round-Closed frontier seen closed p id h k = ground (
    arith,
    h,
    k,
    visit-Joins (all_children recent frontier) seen p,
    visit-Joins (all_children recent frontier) seen id,
    visit-finds (all_children recent frontier) seen id,
    all_children-contains recent frontier p id,
    closed p id,
  )

  round-Descends :
      (frontier seen : List String)
      → ((p : String) → contains p frontier ≡ true → Descends recent root p)
      → (id : String) → contains id (visit (all_children recent frontier) seen).0 ≡ true
      → Descends recent root id
  round-Descends frontier seen from id h =
      let (p, there, k) =
        all_children-parent recent frontier id
          (visit-from (all_children recent frontier) seen id h) in
      child p id (from p there) k

  round-contains :
      (frontier : List String) (c : String)
      → contains c (all_children recent frontier) ≡ true
      → contains c (map (λ v. v.body.id) recent) ≡ true
  round-contains frontier c h =
      let (p, there, k) = all_children-parent recent frontier c h in
      children_of-contains recent p c k

  descend-Found :
      (n : ℕ) (frontier seen : List String)
      → ((p : String) → contains p frontier ≡ true → Descends recent root p)
      → Closed seen frontier
      → (is_empty frontier ≡ false → unseen (map (λ v. v.body.id) recent) seen < n)
      → Found seen (descend recent n frontier seen)
  descend-Found n [] seen from closed fuel =
      (tt, (λ id h. ground (arith, h)), λ p id h k. ground (arith, h, k, closed p id))
  descend-Found zero (x ∷ frontier) seen from closed fuel = absurd (ground (arith, fuel refl))
  descend-Found (suc n) (x ∷ frontier) seen from closed fuel =
      let children = all_children recent (x ∷ frontier) in
      with_round-Found (visit children seen).0 seen (visit children seen).1
        (visit-Joins children seen) (visit-Fresh children seen)
        (round-Descends (x ∷ frontier) seen from)
        (descend recent n (visit children seen).0 (visit children seen).1)
        (descend-Found n (visit children seen).0 (visit children seen).1
          (round-Descends (x ∷ frontier) seen from) (round-Closed (x ∷ frontier) seen closed)
          (λ h. ground (
            arith,
            fuel refl,
            is_empty-length (visit children seen).0 h,
            visit-unseen (map (λ v. v.body.id) recent) children seen
                (round-contains (x ∷ frontier)),
          )))

  -- The search ended; it lists every descendant other than the run itself just once, and nothing else.
  abbrev pub Complete : Option (List String) → Type 0
  Complete none = ⊥
  Complete (some ids) =
      Fresh (root ∷ []) ids
      × ((id : String) → (contains id (root ∷ ids) ≡ true) ↔ Descends recent root id)

  Descends-listed :
      (ids : List String)
      → ((p id : String)
          → contains p ids || contains p (root ∷ []) ≡ true
          → contains id (children_of recent p) ≡ true
          → contains id ids || contains id (root ∷ []) ≡ true)
      → (id : String) → Descends recent root id
      → contains id (root ∷ ids) ≡ true
  Descends-listed ids closed _ start = ground (arith, eq_iff root root)
  Descends-listed ids closed _ (child p id above k) =
      ground (arith, Descends-listed ids closed p above, closed p id, k)

  Found-Complete : (o : Option (List String)) → Found (root ∷ []) o → Complete o
  Found-Complete none h = h
  Found-Complete (some ids) (fresh, below, closed) = (
    fresh,
    λ id. (
      (λ h. elim (Bool-cases (root == id)) [
        | inl e ↦ subst (λ q. Descends recent root q) ((eq_iff root id).0 e) start
        | inr e ↦ below id (ground (arith, e, h))
      ]),
      (λ d. Descends-listed ids closed id d),
    ),
  )

  pub descendants-Complete : Complete (descendants recent root)
  unfolding descendants
  descendants-Complete =
      Found-Complete (descend recent (suc (length recent)) (root ∷ []) (root ∷ [])) (
        descend-Found (suc (length recent)) (root ∷ []) (root ∷ [])
          (λ p h. subst (λ q. Descends recent root q) ((eq_iff root p).0 (ground (arith, h))) start)
          (λ p id h k. ground (arith, h))
          (λ _. ground (
            arith,
            unseen_all (map (λ v. v.body.id) recent) (root ∷ []),
            length-map (λ v. v.body.id) recent,
          )))
