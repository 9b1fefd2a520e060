-- ===== src/Server/Candidates.antt =====
-- The manifest that a worker leaves and the end of its run.
use buffdata.Server.Workers.{verified, manifest_limit, finished, ending, stop_error}
use buffdata.Prelude.{
  none, some, false, refl, String, Option, List, ◌≡◌, not, string_eq, first, ap, sym, ◌∙◌, ltb,
}
use buffdata.Prelude.Exec.{ok}
use buffdata.Prelude.Json.{Json}
use buffdata.Runs.Models.{RunStatus, succeeded}
use buffdata.Runs.Tables.{Outside, Db, Run}
use buffdata.Runs.Store.{is_run}
use buffdata.Runs.Lifecycle.{finish, is_leased}
use buffdata.Runs.Lifecycle.Invariant.{IsSound}
use buffdata.Server.{Server, reply, service_call, store_call}
use buffdata.Server.Workers.{Files, manifest_for, candidate, candidate_path}
use mathlib.Core.Path.{subst}
use buffdata.Server.Replies.{then-ok, both-inj, service-ok, refuse-ok, reply-ok, store-ok}
use buffdata.Security.Paths.{Location}
use buffdata.Runs.Service.Artifacts.{RunManifest, run_directory, parsed, project_root}
use buffdata.Runs.Service.Artifacts.Verified.{Checked, verify_manifest-Checked}
use buffdata.Runs.Service.Resume.Checked.{continue-ok}
use buffdata.Runs.Service.Resume.{give}
use buffdata.Runs.Service.Artifacts.Intact.{parsed-some}
use buffdata.Runs.Lifecycle.Replies.{finished_row}
use buffdata.Runs.Lifecycle.Success.{finish-Succeeded}
use buffdata.Server.Tokens.{notify-runs}

module _ (v : Server) (f : Files) (project run_id : String) where
  -- The manifest is what the file in the directory of the run holds, and has passed `verify_manifest`.
  abbrev pub Vouched : Db → Json → Type 0
  Vouched s j =
      (path : Location) × (m : RunManifest) × (candidate_path v project run_id s ≡ (ok path, s))
      × (f.read_json path ≡ ok j)
      × (v.host.python.parse j ≡ some m)
      × Checked v.host.python v.host.disk v.host.root project run_id s m m

  candidate_place :
      (s t : Db) (path : Location) → candidate_path v project run_id s ≡ (ok path, t) → t ≡ s
  candidate_place s t path h =
      let (directory, s1, h1, k1) =
        continue-ok (give (run_directory v.host.python v.host.disk v.host.root project run_id) s) _
          path t h in
      let (root, s2, h2, k2) =
        continue-ok (give (project_root v.host.python v.host.disk v.host.root project) s1) _ path t
          k1 in
      sym (ap (λ r. r.1) k2) ∙ sym (ap (λ r. r.1) h2) ∙ sym (ap (λ r. r.1) h1)

  verified-Checked :
      (s t : Db) (j : Json) (n : RunManifest)
      → verified v project run_id j s ≡ (ok n, t)
      → (m : RunManifest) × (v.host.python.parse j ≡ some m)
        × Checked v.host.python v.host.disk v.host.root project run_id s m m
        × (t ≡ s)
  verified-Checked s t j n h =
      let (m, s1, h1, k1) = continue-ok (give (parsed v.host.python j) s) _ n t h in
      let parse = parsed-some v.host.python j m (ap (λ r. r.0) h1) in
      let (same, kept) : (s ≡ s1) × (s1 ≡ t) = (ap (λ r. r.1) h1, ap (λ r. r.1) k1) in
      let (run, directory, here, row, belongs, place, full, intact) =
        verify_manifest-Checked v.host.python v.host.disk v.host.root project run_id s1 m n
          (ap (λ r. r.0) k1) in
      (
        m,
        parse,
        subst (λ u. Checked v.host.python v.host.disk v.host.root project run_id u m m) (sym same)
            (run, directory, refl, row, belongs, place, full, intact),
        sym kept ∙ sym same,
      )

  candidate-Vouched :
      (s t : Db) (j : Json) → candidate v f project run_id s ≡ (ok j, t) → Vouched s j × (t ≡ s)
  candidate-Vouched s t j h =
      let (path, s1, h1, k1) = then-ok (service_call (candidate_path v project run_id) s) _ j t h in
      let there = service-ok (candidate_path v project run_id s) path s1 h1 in
      let here = candidate_place s s1 path there in
      let (_, k2) = refuse-ok (not (v.host.disk.exists path)) 500 _ s1 j t k1 in
      let (_, k3) = refuse-ok (ltb manifest_limit (v.host.disk.size path)) 409 _ s1 j t k2 in
      let (manifest, s2, h4, k4) = then-ok (reply (f.read_json path) s1) _ j t k3 in
      let (n, s3, h5, k5) =
        then-ok (service_call (verified v project run_id manifest) s2) _ j t k4 in
      let (m, parse, checked, left) =
        verified-Checked s2 s3 manifest n
          (service-ok (verified v project run_id manifest s2) n s3 h5) in
      let (same, kept) = both-inj k5 in
      let (read, still) = reply-ok (f.read_json path) s1 manifest s2 h4 in
      let back : s2 ≡ s = sym still ∙ here in
      (
        (
          path,
          m,
          there ∙ ap (λ (u : Db). (ok path, u)) here,
          read ∙ ap ok same,
          sym (ap v.host.python.parse same) ∙ parse,
          subst (λ u. Checked v.host.python v.host.disk v.host.root project run_id u m m) back
              checked,
        ),
        sym kept ∙ left ∙ back,
      )

  pub manifest_for-Vouched :
      (s t : Db) (manifest : Option Json)
      → manifest_for v f project run_id succeeded s ≡ (ok manifest, t)
      → (j : Json) × (manifest ≡ some j) × Vouched s j × (t ≡ s)
  manifest_for-Vouched s t manifest h =
      let (j, s1, first_part, rest) = then-ok (candidate v f project run_id s) _ manifest t h in
      let (same, kept) = both-inj rest in
      let (held, left) = candidate-Vouched s s1 j first_part in (j, sym same, held, sym kept ∙ left)

module _ (f : Files) (project run_id : String) (lease : Option String) where
  abbrev pub Ends : Outside → Db → Json → Db → Type 0
  Ends o s1 j t =
      (r : Run) × (first (is_leased project run_id lease) s1.runs ≡ some r)
      × (r.cancel_requested ≡ false)
      × (first (is_run project run_id) t.runs ≡ some (finished_row o succeeded (some j) none r))

  pub finished-Ends :
      (s t : Db) (status : RunStatus) (manifest : Option Json)
      → IsSound s
      → finished f project run_id lease status manifest s ≡ (ok succeeded, t)
      → (status ≡ succeeded) × ((j : Json) → manifest ≡ some j → Ends (f.clock 1) s j t)
  finished-Ends s t status manifest sound h =
      let (view, s1, h1, k1) =
        then-ok
          (store_call
            (finish (f.clock 1) project run_id lease status manifest (stop_error manifest) none) s)
          _ succeeded t h in
      let won =
        finish-Succeeded (f.clock 1) project run_id lease status manifest (stop_error manifest) s
          view s1 sound (store-ok _ view s1 h1) (both-inj k1).0 in
      let (r, held, go, same, row) = won in
      (
        same,
        λ j e. (
          r,
          held,
          go,
          sym (
                ap (λ (u : List Run). first (is_run project run_id) u)
                  (sym (notify-runs f project run_id (ending view.status) s1)
                    ∙ ap (λ (u : Db). u.runs) (both-inj k1).1))
              ∙ row
              ∙ ap
                  (λ (x : Option Json).
                    some (finished_row (f.clock 1) succeeded x (stop_error x) r))
                  e,
        ),
      )
