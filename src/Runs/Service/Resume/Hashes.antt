-- ===== src/Runs/Service/Resume/Hashes.antt =====
-- The hashes of the inputs of a submission.
use buffdata.Prelude.{
  none, some, String, Option, ◌≡◌, ◌==◌, ◌∙◌, ◌⊎◌, not, ap, sym, arith, string_eq, Bool-cases, inl,
  inr, eq_iff, ◌++◌,
}
use buffdata.Prelude.Exec.{ok}
use buffdata.Prelude.Json.{Json}
use buffdata.Runs.Models.{status_eq}
use buffdata.Runs.Tables.{Db}
use buffdata.Runs.Store.{dataset}
use buffdata.Runs.Service.{ok_inj}
use buffdata.Runs.Service.Artifacts.{hash_path, project_root, contained, path_result}
use buffdata.Runs.Service.Resume.{Host, call, give, input_hash, text_at, dataset_path, hashed_input}
use buffdata.Runs.Service.Resume.Checked.{continue-ok, ok-inj}
use buffdata.Runs.Service.Prepare.Prepared.{dataset_path-kept, dataset-kept}
use buffdata.Security.Paths.{Location, check_input}
use buffdata.Runs.Service.Artifacts.Intact.{and_then-ok, guard-ok}

-- The hash of an input: none where no dataset is named, or the one that the dataset was registered with, which
-- its file still has.
abbrev pub Registered : Host → String → Option String → Option String → Db → Type 0
Registered h project none hash s = hash ≡ none
Registered h project (some id) hash s =
    ((id ≡ "") × (hash ≡ none))
    ⊎ ((body : Json) × (path : Location) × (sha256 : String) × (call (dataset project id) s
          ≡ (ok body, s))
        × (text_at "sha256" body ≡ ok sha256)
        × (hash_path h.python h.disk path ≡ ok sha256)
        × (hash ≡ some sha256))

module _ (h : Host) (project : String) where
  path-Registered :
      (id : String) (s t : Db) (path : Location)
      → dataset_path h project id s ≡ (ok path, t)
      → (body : Json) × (sha256 : String) × (call (dataset project id) s ≡ (ok body, s))
        × (text_at "sha256" body ≡ ok sha256)
        × (hash_path h.python h.disk path ≡ ok sha256)
  unfolding dataset_path
  path-Registered id s t path k =
      let (body, s1, h1, k1) = continue-ok (call (dataset project id) s) _ path t k in
      let (relative, h2, k2) = and_then-ok (text_at "path" body) _ path (ap (λ r. r.0) k1) in
      let (sha256, h3, k3) = and_then-ok (text_at "sha256" body) _ path k2 in
      let (base, h4, k4) = and_then-ok (project_root h.python h.disk h.root project) _ path k3 in
      let (p, h5, k5) =
        and_then-ok (contained h.disk base (base ++ h.path_parts relative)) _ path k4 in
      let (actual, h6, k6) = and_then-ok (hash_path h.python h.disk p) _ path k5 in
      let (same, k7) = guard-ok (not (actual == sha256)) _ (ok p) path k6 in
      (
        body,
        sha256,
        h1 ∙ ap (λ (u : Db). (ok body, u)) (dataset-kept project id s s1 body h1),
        h3,
        ap (hash_path h.python h.disk) (sym (ok_inj k7))
            ∙ h6
            ∙ ap ok ((eq_iff actual sha256).0 (ground (arith, same))),
      )

  hashed-same :
      (p : Json) (path : Location) (hash : Option String) (sha256 : String)
      → hashed_input h p path ≡ ok hash
      → hash_path h.python h.disk path ≡ ok sha256
      → hash ≡ some sha256
  hashed-same p path hash sha256 k same =
      let (_, h2, k2) =
        and_then-ok (path_result (check_input h.disk none h.defaults (some (h.file_policy p)) path))
          _ hash k in
      let (actual, h3, k3) = and_then-ok (hash_path h.python h.disk path) _ hash k2 in
      sym (ok_inj k3) ∙ ap some (ok_inj (sym h3 ∙ same))

  pub input-Registered :
      (p : Json) (id : Option String) (s t : Db) (hash : Option String)
      → input_hash h p project id s ≡ (ok hash, t)
      → Registered h project id hash s × (t ≡ s)
  input-Registered p none s t hash k = (sym (ok-inj k).0, sym (ok-inj k).1)
  input-Registered p (some id) s t hash k = elim (Bool-cases (id == "")) [
    | inl e ↦ let l = ok-inj (rw e at k) in (inl ((eq_iff id "").0 e, sym l.0), sym l.1)
    | inr e ↦
        let (path, s1, h1, k1) =
          continue-ok (dataset_path h project id s) (λ q. give (hashed_input h p q)) hash t
            (rw e at k) in
        let (body, sha256, found, wanted, same) = path-Registered id s s1 path h1 in
        (
          inr (
            body,
            path,
            sha256,
            found,
            wanted,
            same,
            hashed-same p path hash sha256 (ap (λ r. r.0) k1) same,
          ),
          sym (ap (λ r. r.1) k1) ∙ dataset_path-kept h project id s s1 path h1,
        )
  ]
