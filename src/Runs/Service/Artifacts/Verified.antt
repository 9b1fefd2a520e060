-- ===== src/Runs/Service/Artifacts/Verified.antt =====
-- What an artifact that is handed out has passed.
use buffdata.Prelude.{
  some, true, String, ◌≡◌, ◌++◌, not, ◌∙◌, ◌==◌, eq_iff, ◌||◌, arith, ◌&&◌, string_eq, sym,
}
use buffdata.Prelude.Exec.{ok}
use buffdata.Runs.Service.Artifacts.{
  Python, Artifact, found, manifest_of, RunManifest, contained, parsed, identity_check,
  artifacts_check, named, run_directory, required, artifact, verify, published, verify_manifest,
}
use buffdata.Security.Paths.{Disk, Location}
use buffdata.Runs.Models.{RunStatus, status_beq_iff, status_eq}
use buffdata.Prelude.Json.{Json}
use buffdata.Runs.Tables.{Db}
use buffdata.Runs.Store.{RunView}
use mathlib.Core.Path.{subst}
use buffdata.Runs.Service.Lineage.{run_of}
use buffdata.Runs.Service.{ok_inj}
use buffdata.Runs.Service.Artifacts.Intact.{
  Intact, guard-ok, and_then-ok, artifacts_check-Intact, manifest_of-some, found-ok, parsed-some,
  contained-Intact,
}

-- A manifest that belongs to the run, with its provenance, and that passed the gate it asks for.
abbrev pub Belongs : Python → String → String → RunManifest → RunView → Type 0
Belongs py project run_id m run =
    (m.run_id ≡ run_id)
    × (m.project_id ≡ project)
    × (py.same_spec m.spec run.body.spec ≡ true)
    × (py.same_json m.implementation run.body.implementation ≡ true)
    × (py.same_json m.inputs run.body.inputs ≡ true)
    × (not m.spec.require_positive_gain || m.accepted ≡ true)

identity_check-Belongs :
    (py : Python) (project run_id : String) (m : RunManifest) (run : RunView)
    → identity_check py project run_id m run ≡ ok tt
    → Belongs py project run_id m run
identity_check-Belongs py project run_id m run h =
    let (same, h1) =
      guard-ok
        (not (m.run_id == run_id)
          || not (m.project_id == project)
          || not (py.same_spec m.spec run.body.spec))
        _ _ tt h in
    let (from, h2) =
      guard-ok
        (not (py.same_json m.implementation run.body.implementation)
          || not (py.same_json m.inputs run.body.inputs))
        _ _ tt h1 in
    let (gate, h3) = guard-ok (m.spec.require_positive_gain && not m.accepted) _ (ok tt) tt h2 in
    (
      (eq_iff m.run_id run_id).0 (ground (arith, same)),
      (eq_iff m.project_id project).0 (ground (arith, same)),
      ground (arith, same),
      ground (arith, from),
      ground (arith, from),
      ground (arith, gate),
    )

-- What a run whose artifacts are verified has.
abbrev pub Published : Python → Disk → Location → String → String → Db → RunManifest → Type 0
Published py d root project run_id s m =
    (run : RunView) × (j : Json) × (directory : Location) × (run_of project s run_id ≡ ok run)
    × (run.status ≡ RunStatus.succeeded)
    × (run.body.manifest ≡ some j)
    × (py.parse j ≡ some m)
    × Belongs py project run_id m run
    × (run_directory py d root project run_id ≡ ok directory)
    × (required m.artifacts ≡ true)
    × (artifacts_check py d directory m.artifacts ≡ ok tt)

published-some :
    (run : RunView) (j : Json)
    → published run ≡ ok j
    → (run.status ≡ RunStatus.succeeded) × (run.body.manifest ≡ some j)
published-some run j h =
    let (ended, k) =
      guard-ok (not (run.status == RunStatus.succeeded)) _ (manifest_of run.body.manifest) j h in
    (
      (status_beq_iff run.status RunStatus.succeeded).0 (ground (arith, ended)),
      manifest_of-some run.body.manifest j k,
    )

-- Two readings of the run are of one value.
one_run :
    (project run_id : String) (s : Db) (v w : RunView)
    → run_of project s run_id ≡ ok v
    → run_of project s run_id ≡ ok w
    → v ≡ w
one_run project run_id s v w h k = cc

module _ (py : Python) (d : Disk) (root : Location) (project run_id : String) (s : Db) where
  -- What the checks of a manifest give.
  abbrev pub Checked : RunManifest → RunManifest → Type 0
  Checked m' m =
      (run : RunView) × (directory : Location) × (m' ≡ m)
      × (run_of project s run_id ≡ ok run)
      × Belongs py project run_id m' run
      × (run_directory py d root project run_id ≡ ok directory)
      × (required m'.artifacts ≡ true)
      × (artifacts_check py d directory m'.artifacts ≡ ok tt)

  pub verify_manifest-Checked :
      (m' m : RunManifest) → verify_manifest py d root project run_id m' s ≡ ok m → Checked m' m
  unfolding verify_manifest
  verify_manifest-Checked m' m h =
      let (run, h1, k1) = and_then-ok (found (run_of project s run_id)) _ m h in
      let (same, h2, k2) = and_then-ok (identity_check py project run_id m' run) _ m k1 in
      let (directory, h3, k3) = and_then-ok (run_directory py d root project run_id) _ m k2 in
      let (all_there, k4) = guard-ok (not (required m'.artifacts)) _ _ m k3 in
      let (checked, h5, k5) = and_then-ok (artifacts_check py d directory m'.artifacts) _ m k4 in
      (
        run,
        directory,
        ok_inj k5,
        found-ok (run_of project s run_id) run h1,
        identity_check-Belongs py project run_id m' run h2,
        h3,
        ground (arith, all_there),
        h5,
      )

  Checked-Published :
      (m' m : RunManifest) (run : RunView) (j : Json)
      → run_of project s run_id ≡ ok run
      → published run ≡ ok j
      → py.parse j ≡ some m'
      → Checked m' m
      → Published py d root project run_id s m
  Checked-Published m' m run j here public parse
        (again, directory, same, there, mine, place, full, intact) =
      let (ended, held) = published-some run j public in
      let one = one_run project run_id s run again here there in
      subst (Published py d root project run_id s) same (
        again,
        j,
        directory,
        there,
        subst (λ v. v.status ≡ RunStatus.succeeded) one ended,
        subst (λ v. v.body.manifest ≡ some j) one held,
        parse,
        mine,
        place,
        full,
        intact,
      )

  verify-Published :
      (m : RunManifest)
      → verify py d root project run_id s ≡ ok m
      → Published py d root project run_id s m
  unfolding verify
  verify-Published m h =
      let (run, h1, k1) = and_then-ok (found (run_of project s run_id)) _ m h in
      let (j, h2, k2) = and_then-ok (published run) _ m k1 in
      let (m', h3, k3) = and_then-ok (parsed py j) _ m k2 in
      Checked-Published m' m run j (found-ok (run_of project s run_id) run h1) h2
        (parsed-some py j m' h3) (verify_manifest-Checked m' m k3)

  item-Intact :
      (m : RunManifest) (name : String) (item : Artifact) (directory path : Location)
      → Published py d root project run_id s m
      → named name m.artifacts ≡ ok item
      → run_directory py d root project run_id ≡ ok directory
      → contained d directory (directory ++ item.path) ≡ ok path
      → Intact py d directory item path
  item-Intact m name item directory path (run, j, place, h1, h2, h3, h4, h5, h6, h7, h8) this h k =
      let (q, intact) =
        subst (λ x. (q : Location) × Intact py d x item q) (ok_inj (sym h6 ∙ h))
          (artifacts_check-Intact py d place name m.artifacts item h8 this) in
      subst (Intact py d directory item)
        (intact.0 ∙ sym (contained-Intact d directory (directory ++ item.path) path k).0) intact

  -- An artifact that is handed out is of a run that succeeded. Its manifest names this run and project,
  -- has the specification, the implementation and the inputs that were submitted, and passed the
  -- accuracy gate where the specification asks for it. The artifact's path is in the directory of the
  -- run, and the bytes there have the hash that the manifest gives.
  pub artifact-Published :
      (name : String) (path : Location)
      → artifact py d root project run_id name s ≡ ok path
      → (m : RunManifest) × (item : Artifact) × (directory : Location) × Published py d root project
          run_id s m
        × (named name m.artifacts ≡ ok item)
        × (run_directory py d root project run_id ≡ ok directory)
        × Intact py d directory item path
  unfolding artifact
  artifact-Published name path h =
      let (m, h1, k1) = and_then-ok (verify py d root project run_id s) _ path h in
      let (item, h2, k2) = and_then-ok (named name m.artifacts) _ path k1 in
      let (directory, h3, k3) = and_then-ok (run_directory py d root project run_id) _ path k2 in
      let public = verify-Published m h1 in
      (m, item, directory, public, h2, h3, item-Intact m name item directory path public h2 h3 k3)
