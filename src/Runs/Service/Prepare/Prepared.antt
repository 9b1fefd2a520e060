-- ===== src/Runs/Service/Prepare/Prepared.antt =====
-- What the inputs of a prepared run have been checked for.
use buffdata.Prelude.{
  none, some, true, false, String, Option, ◌∷◌, ◌==◌, ◌≡◌, not, string_eq, first, Bool-cases,
  Option-cases, inl, inr, arith, eq_iff, ap, sym, ◌∙◌, ◌⊎◌, ◌++◌,
}
use buffdata.Prelude.Exec.{ok, ◌>>=◌, pure}
use buffdata.Prelude.Json.{Json}
use buffdata.Runs.Tables.{Outside, Db, RunBody}
use buffdata.Runs.Sessions.{KeyManager}
use buffdata.Runs.Store.{dataset, project_body, live_dataset}
use buffdata.Runs.Service.{ok_inj}
use buffdata.Runs.Service.Artifacts.{hash_path, run_directory, path_result}
use buffdata.Runs.Service.Artifacts.Intact.{and_then-ok, guard-ok}
use buffdata.Runs.Service.Resume.{Host, policy, give, call, dataset_path, text_at}
use buffdata.Runs.Service.Resume.Checked.{continue-ok, guarded-ok, raised-ok, ok-inj}
use buffdata.Runs.Service.Prepare.{
  prepare, prepare_in, prepared_input, run_key, last_part, parent_copied, copy_snapshot, compared,
  with_copy,
}
use buffdata.Security.Paths.{Location, contained_path}
use mathlib.Core.Path.{subst}

-- An input whose copy did not exist before, and has the hash that was submitted where it now stands.
abbrev pub Snapshot : Host → String → Location → RunBody → String → String → Db → Host → Type 0
Snapshot h project directory body kind dataset_id s after =
    (source : Location) × (sha256 : String) × (dataset_path h project dataset_id s ≡ (ok source, s))
    × (text_at kind body.inputs ≡ ok sha256)
    × (h.disk.exists (directory ++ kind ∷ last_part source) ≡ false)
    × (after ≡ with_copy h source (directory ++ kind ∷ last_part source))
    × (hash_path after.python after.disk (directory ++ kind ∷ last_part source) ≡ ok sha256)

-- No dataset is named, or its snapshot was taken.
abbrev pub Taken : Host → String → Location → RunBody → String → Option String → Db → Host → Type 0
Taken h project directory body kind none s after = after ≡ h
Taken h project directory body kind (some dataset_id) s after =
    ((dataset_id ≡ "") × (after ≡ h)) ⊎ Snapshot h project directory body kind dataset_id s after

abbrev pub Prepared : Host → RunBody → Location → Db → Type 0
Prepared h body directory s =
    (p : Json) × (identity : Json) × (policy body.spec.project_id s ≡ (ok p, s))
    × (h.identity p ≡ ok identity)
    × (h.python.same_json identity body.implementation ≡ true)
    × (run_directory h.python h.disk h.root body.spec.project_id body.id ≡ ok directory)
    × (h1 : Host) × (h2 : Host) × Taken h body.spec.project_id directory body "source"
        (some body.spec.dataset_id) s h1
    × Taken h1 body.spec.project_id directory body "validation" body.spec.validation_dataset_id s h2

-- What is read changes no table.
pub policy-kept : (project : String) (s t : Db) (p : Json) → policy project s ≡ (ok p, t) → t ≡ s
unfolding policy project_body
policy-kept project s t p h = elim (Option-cases (first (λ r. r.id == project) s.projects)) [
  | inl e ↦ absurd (raised-ok (rw (project_body, e) at h))
  | inr (r, e) ↦ sym (ok-inj (rw (project_body, e) at h)).1
]

pub dataset-kept :
    (project id : String) (s t : Db) (j : Json) → call (dataset project id) s ≡ (ok j, t) → t ≡ s
unfolding dataset
dataset-kept project id s t j h = elim (Option-cases (first (live_dataset project id) s.datasets)) [
  | inl e ↦ absurd (raised-ok (rw (dataset, e) at h))
  | inr (r, e) ↦ sym (ok-inj (rw (dataset, e) at h)).1
]

pub dataset_path-kept :
    (h : Host) (project id : String) (s t : Db) (path : Location)
    → dataset_path h project id s ≡ (ok path, t)
    → t ≡ s
unfolding dataset_path
dataset_path-kept h project id s t path k =
    let (j, s1, h1, k1) = continue-ok (call (dataset project id) s) _ path t k in
    sym (ap (λ r. r.1) k1) ∙ dataset-kept project id s s1 j h1

compared-same :
    (h : Host) (target : Location) (kind : String) (body : RunBody) (s t : Db)
    → compared h target kind body s ≡ (ok tt, t)
    → (sha256 : String) × (text_at kind body.inputs ≡ ok sha256)
      × (hash_path h.python h.disk target ≡ ok sha256)
      × (t ≡ s)
compared-same h target kind body s t k =
    let (actual, s1, h1, k1) = continue-ok (give (hash_path h.python h.disk target) s) _ tt t k in
    let (sha256, s2, h2, k2) = continue-ok (give (text_at kind body.inputs) s1) _ tt t k1 in
    let (same, k3) = guarded-ok (not (actual == sha256)) _ (pure tt) s2 tt t k2 in
    (
      sha256,
      ap (λ r. r.0) h2,
      ap (λ r. r.0) h1 ∙ ap ok ((eq_iff actual sha256).0 (ground (arith, same))),
      sym (ap (λ r. r.1) h1 ∙ ap (λ r. r.1) h2 ∙ (ok-inj k3).1),
    )

module _ (h : Host) (project : String) (directory : Location) (body : RunBody) (kind : String) where
  copied-with :
      (source : Location) (after : Host)
      → copy_snapshot h source (directory ++ kind ∷ last_part source) ≡ ok after
      → (h.disk.exists (directory ++ kind ∷ last_part source) ≡ false)
        × (after ≡ with_copy h source (directory ++ kind ∷ last_part source))
  copied-with source after k =
      let (_, h1, k1) = and_then-ok (path_result (contained_path h.disk none source)) _ after k in
      let (fresh, done) =
        guard-ok (h.disk.exists (directory ++ kind ∷ last_part source)) _
          (ok (with_copy h source (directory ++ kind ∷ last_part source))) after k1 in
      (fresh, sym (ok_inj done))

  named-Snapshot :
      (dataset_id : String) (s t : Db) (after : Host)
      → ((dataset_path h project dataset_id >>= λ source.
            give (copy_snapshot h source (directory ++ kind ∷ last_part source)) >>= λ copy.
            compared copy (directory ++ kind ∷ last_part source) kind body >>= λ _. pure copy)
          s)
        ≡ (ok after, t)
      → Snapshot h project directory body kind dataset_id s after × (t ≡ s)
  named-Snapshot dataset_id s t after k =
      let (source, s1, h1, k1) = continue-ok (dataset_path h project dataset_id s) _ after t k in
      let same = dataset_path-kept h project dataset_id s s1 source h1 in
      let (copy, s2, h2, k2) =
        continue-ok (give (copy_snapshot h source (directory ++ kind ∷ last_part source)) s1) _
          after t k1 in
      let (_, s3, h3, k3) =
        continue-ok (compared copy (directory ++ kind ∷ last_part source) kind body s2) _ after t
          k2 in
      let (fresh, made) = copied-with source copy (ap (λ r. r.0) h2) in
      let (sha256, wanted, hashed, kept) =
        compared-same copy (directory ++ kind ∷ last_part source) kind body s2 s3 h3 in
      let e : copy ≡ after = (ok-inj k3).0 in
      (
        (
          source,
          sha256,
          h1 ∙ ap (λ (u : Db). (ok source, u)) same,
          wanted,
          fresh,
          sym e ∙ made,
          subst
              (λ (g : Host).
                hash_path g.python g.disk (directory ++ kind ∷ last_part source) ≡ ok sha256)
              e hashed,
        ),
        sym (ok-inj k3).1 ∙ kept ∙ sym (ap (λ r. r.1) h2) ∙ same,
      )

  input-Taken :
      (dataset_id : Option String) (s t : Db) (after : Host)
      → prepared_input h project directory body kind dataset_id s ≡ (ok after, t)
      → Taken h project directory body kind dataset_id s after × (t ≡ s)
  input-Taken none s t after k = (sym (ok-inj k).0, sym (ok-inj k).1)
  input-Taken (some dataset_id) s t after k = elim (Bool-cases (dataset_id == "")) [
    | inl e ↦ let l = ok-inj (rw e at k) in (inl ((eq_iff dataset_id "").0 e, sym l.0), sym l.1)
    | inr e ↦
        let (taken, same) = named-Snapshot dataset_id s t after (rw e at k) in (inr taken, same)
  ]

module _ (h : Host) (keys : Option KeyManager) (o : Outside) (body : RunBody) where
  -- The inputs, in tables that they were read from.
  abbrev Inputs : Location → Db → Type 0
  Inputs directory s =
      (run_directory h.python h.disk h.root body.spec.project_id body.id ≡ ok directory)
      × (h1 : Host) × (h2 : Host) × Taken h body.spec.project_id directory body "source"
          (some body.spec.dataset_id) s h1
      × Taken h1 body.spec.project_id directory body "validation" body.spec.validation_dataset_id s
          h2

  prepare_in-Inputs :
      (s t : Db) (directory : Location) (key : Option String)
      → prepare_in h keys o body s ≡ (ok (directory, key), t)
      → Inputs directory s
  prepare_in-Inputs s t directory key k =
      let (place, s1, h1, k1) =
        continue-ok (give (run_directory h.python h.disk h.root body.spec.project_id body.id) s) _
          (directory, key) t k in
      let (files1, s2, h2, k2) =
        continue-ok
          (prepared_input h body.spec.project_id place body "source" (some body.spec.dataset_id) s1)
          _ (directory, key) t k1 in
      let (files2, s3, h3, k3) =
        continue-ok
          (prepared_input files1 body.spec.project_id place body "validation"
            body.spec.validation_dataset_id s2)
          _ (directory, key) t k2 in
      let (_, s3', h3', k3') =
        continue-ok (give (parent_copied files2 body.spec.project_id place body.parent_run_id) s3) _
          (directory, key) t k3 in
      let (key', s4, h4, k4) =
        continue-ok (run_key keys o body.spec.project_id s3') _ (directory, key) t k3' in
      let same : place ≡ directory = ap (λ (x : Location × Option String). x.0) (ok-inj k4).0 in
      let (source, e2) =
        input-Taken h body.spec.project_id place body "source" (some body.spec.dataset_id) s1 s2
          files1 h2 in
      let (validation, e3) =
        input-Taken files1 body.spec.project_id place body "validation"
          body.spec.validation_dataset_id s2 s3 files2 h3 in
      let e1 : s1 ≡ s = sym (ap (λ r. r.1) h1) in
      subst (λ x. Inputs x s) same
        (
          ap (λ r. r.0) h1,
          files1,
          files2,
          subst
              (λ u.
                Taken h body.spec.project_id place body "source" (some body.spec.dataset_id) u
                  files1)
              e1 source,
          subst
              (λ u.
                Taken files1 body.spec.project_id place body "validation"
                  body.spec.validation_dataset_id u files2)
              (e2 ∙ e1) validation,
        )

  -- A run that `prepare` returns a directory for has the implementation that its submission was made with,
  -- and the snapshot of each of its inputs has the hash that was submitted; the copies did not exist before.
  pub prepare-Prepared :
      (s t : Db) (directory : Location) (key : Option String)
      → prepare h keys o body s ≡ (ok (directory, key), t)
      → Prepared h body directory s
  unfolding prepare
  prepare-Prepared s t directory key k =
      let (p, s1, h1, k1) = continue-ok (policy body.spec.project_id s) _ (directory, key) t k in
      let e1 = policy-kept body.spec.project_id s s1 p h1 in
      let (identity, s2, h2, k2) = continue-ok (give (h.identity p) s1) _ (directory, key) t k1 in
      let (same, k3) =
        guarded-ok (not (h.python.same_json identity body.implementation)) _
          (prepare_in h keys o body) s2 (directory, key) t k2 in
      let e2 : s2 ≡ s = sym (ap (λ r. r.1) h2) ∙ e1 in
      let (place, h1', h2', source, validation) =
        subst (Inputs directory) e2 (prepare_in-Inputs s2 t directory key k3) in
      (
        p,
        identity,
        h1 ∙ ap (λ (u : Db). (ok p, u)) e1,
        ap (λ r. r.0) h2,
        ground (arith, same),
        place,
        h1',
        h2',
        source,
        validation,
      )
