-- ===== src/Runs/Service/Artifacts/Intact.antt =====
-- The steps of a verification that raised nothing, and the files whose bytes have the hash of the manifest.
use buffdata.Prelude.{
  [], none, some, true, false, refl, String, Bool, Option, if◌then◌else◌, ◌≡◌, ◌++◌, ap,
  Option-cases, not, inl, inr, ◌∙◌, ◌==◌, List, eq_iff, arith, string_eq, ◌∷◌, Bool-cases,
}
use buffdata.Prelude.Exec.{Result, err, ok}
use buffdata.Runs.Service.Artifacts.{
  Python, ServiceError, Artifact, and_then, found, item_check, manifest_of, RunManifest, contained,
  hash_path, parsed, hash_matches, path_result, artifacts_check, named,
}
use buffdata.Security.Paths.{Disk, Location, is_relative_to, PathError, contained_path}
use buffdata.Runs.Models.{StoreError, status_eq}
use buffdata.Prelude.Json.{Json, Fields}
use mathlib.Core.Path.{subst}
use buffdata.Security.Paths.Limits.{Takes, is_contained, contained_path-Takes}
use buffdata.Runs.Service.{ok_inj, err_ok}

pub and_then-ok :
    {A B : Type 0} (r : Result ServiceError A) (f : A → Result ServiceError B) (b : B)
    → and_then r f ≡ ok b
    → (a : A) × (r ≡ ok a) × (f a ≡ ok b)
and_then-ok (err e) f b h = absurd (err_ok h)
and_then-ok (ok a) f b h = (a, refl, h)

pub guard-ok :
    {A : Type 0} (c : Bool) (e : ServiceError) (r : Result ServiceError A) (a : A)
    → (if c then err e else r) ≡ ok a
    → (c ≡ false) × (r ≡ ok a)
guard-ok true e r a h = absurd (err_ok h)
guard-ok false e r a h = (refl, h)

pub found-ok : {A : Type 0} (r : Result StoreError A) (a : A) → found r ≡ ok a → r ≡ ok a
found-ok (err e) a h = absurd (err_ok h)
found-ok (ok b) a h = ap ok (ok_inj h)

pub manifest_of-some : (o : Option Json) (j : Json) → manifest_of o ≡ ok j → o ≡ some j
manifest_of-some none j h = absurd (err_ok h)
manifest_of-some (some Json.null) j h = absurd (err_ok h)
manifest_of-some (some (Json.obj Fields.end)) j h = absurd (err_ok h)
manifest_of-some (some k) j h = ap some (ok_inj h)

pub parsed-some :
    (py : Python) (j : Json) (m : RunManifest) → parsed py j ≡ ok m → py.parse j ≡ some m
parsed-some py j m h = elim (Option-cases (py.parse j)) [
  | inl e ↦ absurd (err_ok (rw (parsed, e) at h))
  | inr (k, e) ↦ e ∙ ap some (ok_inj (rw (parsed, e) at h))
]

-- A path in the directory of a run whose bytes have the hash of the manifest.
abbrev pub Intact : Python → Disk → Location → Artifact → Location → Type 0
Intact py d directory item path =
    (path ≡ d.resolve (directory ++ item.path))
    × (is_relative_to path (d.resolve directory) ≡ true)
    × (hash_path py d path ≡ ok item.sha256)

path_result-ok : {A : Type 0} (r : Result PathError A) (a : A) → path_result r ≡ ok a → r ≡ ok a
path_result-ok (err e) a h = absurd (err_ok h)
path_result-ok (ok b) a h = ap ok (ok_inj h)

pub contained-Intact :
    (d : Disk) (root path q : Location)
    → contained d root path ≡ ok q
    → (q ≡ d.resolve path) × (is_relative_to q (d.resolve root) ≡ true)
contained-Intact d root path q h =
    let takes =
      subst (λ r. Takes (is_contained d (some root) path) (d.resolve path) r)
        (path_result-ok (contained_path d (some root) path) q h)
        (contained_path-Takes d (some root) path) in
    (takes.1, rw takes.1 (ground (arith, takes.0)))

hash_matches-ok :
    (item : Artifact) (r : Result ServiceError String)
    → hash_matches item r ≡ ok tt
    → r ≡ ok item.sha256
hash_matches-ok item (err e) h = absurd (err_ok h)
hash_matches-ok item (ok k) h =
    let (same, done) = guard-ok (not (k == item.sha256)) _ (ok tt) tt h in
    ap ok ((eq_iff k item.sha256).0 (ground (arith, same)))

item_check-Intact :
    (py : Python) (d : Disk) (directory : Location) (item : Artifact)
    → and_then (contained d directory (directory ++ item.path)) (item_check py d item) ≡ ok tt
    → (p : Location) × Intact py d directory item p
item_check-Intact py d directory item h =
    let (p, there, k) = and_then-ok (contained d directory (directory ++ item.path)) _ tt h in
    let (here, m) = guard-ok (not (d.exists p)) _ (hash_matches item (hash_path py d p)) tt k in
    let (place, inside) = contained-Intact d directory (directory ++ item.path) p there in
    (p, (place, inside, hash_matches-ok item (hash_path py d p) m))

pub artifacts_check-Intact :
    (py : Python) (d : Disk) (directory : Location) (name : String) (es : List (String × Artifact))
    (item : Artifact)
    → artifacts_check py d directory es ≡ ok tt
    → named name es ≡ ok item
    → (p : Location) × Intact py d directory item p
artifacts_check-Intact py d directory name [] item h k = absurd (err_ok k)
artifacts_check-Intact py d directory name (e ∷ es) item h k =
    let (done, here, rest) =
      and_then-ok (and_then (contained d directory (directory ++ e.1.path)) (item_check py d e.1)) _
        tt h in
    elim (Bool-cases (e.0 == name)) [
      | inl f ↦
          subst (λ i. (p : Location) × Intact py d directory i p) (ok_inj (rw f at k))
            (item_check-Intact py d directory e.1 here)
      | inr f ↦ artifacts_check-Intact py d directory name es item rest (rw f at k)
    ]
