-- ===== src/Runs/Runner/Manifests.antt =====
-- The manifest that a subprocess leaves and the checks that it passes.
use buffdata.Prelude.{
  [], none, some, false, refl, ℕ, String, Bool, Option, ◌∷◌, ◌+◌, ◌≡◌, ◌++◌, string_eq, Bool-cases,
  inl, inr, ap, sym, ◌⊎◌, ◌*◌, none-ne-some, some-inj,
}
use buffdata.Prelude.Exec.{Result, ok, pure, ◌>>=◌, ◌>>◌}
use buffdata.Prelude.Json.{Json}
use buffdata.Runs.Models.{RunStatus, queued, running, succeeded, failed, cancelled, interrupted}
use buffdata.Runs.Tables.{Db}
use buffdata.Runs.Service.{ServiceError}
use buffdata.Runs.Service.Artifacts.{RunManifest, parsed, verify_manifest}
use buffdata.Runs.Service.Artifacts.Intact.{parsed-some}
use buffdata.Runs.Service.Artifacts.Verified.{Checked, verify_manifest-Checked}
use buffdata.Runs.Service.Resume.{Host, ServiceCall, give}
use buffdata.Runs.Service.Resume.Checked.{continue-ok, ok-inj}
use buffdata.Runs.Runner.{Machine, supervise, outcome, checked, watch, rounds}
use buffdata.Security.Paths.{Location}
use mathlib.Core.Path.{subst}

module _ (m : Machine) (h : Host) (project run_id : String) where
  -- The manifest that the subprocess left: it passed all checks, or it is empty for Python.
  abbrev pub Manifest : Location → Db → Json → Type 0
  Manifest directory s j =
      (m.read_json (directory ++ "candidate-manifest.json" ∷ []) ≡ ok j)
      × ((m.truth j ≡ false)
          ⊎ ((x : RunManifest) × (h.python.parse j ≡ some x)
              × Checked h.python h.disk h.root project run_id s x x))

  none_else :
      {A : Type 0} (status : RunStatus) (s t : Db) (manifest : Option Json)
      → Path
          (Result ServiceError (Option (RunStatus × Option Json)) × Db)
          (ok (some (status, none)), s)
          (ok (some (succeeded, manifest)), t)
      → (status ≡ succeeded → A)
      → A
  none_else status s t manifest k f =
      f (ap (λ (x : RunStatus × Option Json). x.0) (some-inj (ok-inj k).0))

  outcome-read :
      (directory : Location) (status : RunStatus) (s t : Db) (manifest : Option Json)
      → outcome m directory (some status) s ≡ (ok (some (succeeded, manifest)), t)
      → (j : Json) × (manifest ≡ some j)
        × (m.read_json (directory ++ "candidate-manifest.json" ∷ []) ≡ ok j)
  outcome-read directory RunStatus.succeeded s t manifest k =
      let (j, s1, h1, k1) =
        continue-ok (give (m.read_json (directory ++ "candidate-manifest.json" ∷ [])) s) _
          (some (succeeded, manifest)) t k in
      let same : some j ≡ manifest =
        ap (λ (x : RunStatus × Option Json). x.1) (some-inj (ok-inj k1).0) in
      (j, sym same, ap (λ r. r.0) h1)
  outcome-read directory queued s t manifest k = none_else queued s t manifest k (λ e. cc)
  outcome-read directory running s t manifest k = none_else running s t manifest k (λ e. cc)
  outcome-read directory failed s t manifest k = none_else failed s t manifest k (λ e. cc)
  outcome-read directory cancelled s t manifest k = none_else cancelled s t manifest k (λ e. cc)
  outcome-read directory interrupted s t manifest k = none_else interrupted s t manifest k (λ e. cc)

  of_status :
      (directory : Location) (status : Option RunStatus) (s t : Db) (manifest : Option Json)
      → outcome m directory status s ≡ (ok (some (succeeded, manifest)), t)
      → (j : Json) × (manifest ≡ some j)
        × (m.read_json (directory ++ "candidate-manifest.json" ∷ []) ≡ ok j)
  of_status directory none s t manifest k = let e = (ok-inj k).0 in absurd (none-ne-some e)
  of_status directory (some status) s t manifest k = outcome-read directory status s t manifest k

  pub supervise-read :
      (directory : Location) (seconds : ℕ) (beat : ℕ → ServiceCall Bool) (s t : Db)
      (manifest : Option Json)
      → supervise m directory seconds beat s ≡ (ok (some (succeeded, manifest)), t)
      → (j : Json) × (manifest ≡ some j)
        × (m.read_json (directory ++ "candidate-manifest.json" ∷ []) ≡ ok j)
  unfolding supervise
  supervise-read directory seconds beat s t manifest k =
      let (status, s1, h1, k1) =
        continue-ok (watch m (m.time 0 + seconds * 1000000) beat (rounds seconds) 0 s)
          (outcome m directory) (some (succeeded, manifest)) t k in
      of_status directory status s1 t manifest k1

  passed :
      (j : Json) (s t : Db)
      → ((give (parsed h.python j) >>= λ x.
            (λ u. give (verify_manifest h.python h.disk h.root project run_id x u) u) >> pure tt)
          s)
        ≡ (ok tt, t)
      → (x : RunManifest) × (h.python.parse j ≡ some x)
        × Checked h.python h.disk h.root project run_id s x x
  passed j s t k =
      let (x, s1, h1, k1) = continue-ok (give (parsed h.python j) s) _ tt t k in
      let (y, s2, h2, k2) =
        continue-ok (give (verify_manifest h.python h.disk h.root project run_id x s1) s1) _ tt t
          k1 in
      let (run, directory, here, row, belongs, place, full, intact) =
        verify_manifest-Checked h.python h.disk h.root project run_id s1 x y (ap (λ r. r.0) h2) in
      (
        x,
        parsed-some h.python j x (ap (λ r. r.0) h1),
        subst (λ u. Checked h.python h.disk h.root project run_id u x x) (sym (ap (λ r. r.1) h1))
            (run, directory, refl, row, belongs, place, full, intact),
      )

  pub checked-Manifest :
      (j : Json) (s t : Db)
      → checked m h project run_id (some j) s ≡ (ok tt, t)
      → (m.truth j ≡ false)
        ⊎ ((x : RunManifest) × (h.python.parse j ≡ some x)
            × Checked h.python h.disk h.root project run_id s x x)
  checked-Manifest j s t k = elim (Bool-cases (m.truth j)) [
    | inr e ↦ inl e
    | inl e ↦ inr (passed j s t (rw (checked, e) at k))
  ]
