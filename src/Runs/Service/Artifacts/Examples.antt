-- ===== src/Runs/Service/Artifacts/Examples.antt =====
-- Tests of the artifacts of a run that succeeded, one of which was changed on disk.
use buffdata.Prelude.{
  [], none, some, true, false, zero, suc, refl, ℕ, String, List, Bool, if◌then◌else◌, ◌∷◌, ◌==◌,
  nat_eq, string_eq, ◌≡◌,
}
use buffdata.Runs.Service.Lineage.Examples.{spec, run_with, cycle}
use buffdata.Runs.Service.Artifacts.{
  Artifact, artifact, Python, RunManifest, verify, verify_manifest, named, run_directory, hash_path,
  conflict,
}
use buffdata.Security.Paths.{Disk, Location, contained_path}
use buffdata.Runs.Tables.{Db}
use buffdata.Prelude.Json.{Json}
use buffdata.Runs.Service.Artifacts.Verified.{Published, artifact-Published}
use buffdata.Runs.Models.{RunStatus}
use buffdata.Prelude.Exec.{ok, err}
use buffdata.Runs.Store.{get}
use buffdata.Runs.Service.Artifacts.Intact.{Intact}

abbrev is_report : Location → Bool
is_report [] = false
is_report (x ∷ []) = x == "report.json"
is_report (x ∷ y ∷ ys) = is_report (y ∷ ys)

-- The bytes of the report are no longer those that were hashed.
abbrev pub disk : Disk
disk = record {
  is_symlink = λ p. false;
  resolve = λ p. p;
  exists = λ p. true;
  is_dir = λ p. false;
  is_file = λ p. true;
  rglob = λ p. [];
  parent = λ p. "srv" ∷ [];
  ends_with = λ p e. false;
  size = λ p. 1;
  rows = λ p. [];
  blocks = λ p. [];
}

abbrev manifest : Artifact → RunManifest
manifest report = record {
  run_id = "0";
  project_id = "p";
  spec = spec;
  implementation = Json.null;
  inputs = Json.null;
  artifacts =
      ("output", record { path = "out.jsonl" ∷ []; sha256 = "h1" })
      ∷ ("rejected", record { path = "rejected.jsonl" ∷ []; sha256 = "h1" })
      ∷ ("report", report)
      ∷ [];
  accepted = false;
}

abbrev starts_with_two : List ℕ → Bool
starts_with_two [] = false
starts_with_two (n ∷ ns) = n == 2

abbrev digits : ℕ → List ℕ
digits zero = []
digits (suc n) = 48 ∷ digits n

-- Identifiers of the right form have 32 digits, and the bytes of the report hash to h2.
abbrev pub python : String → Python
python report_hash = record {
  codes = λ s. if s == "0" then digits 32 else 112 ∷ [];
  same_json = λ a b. true;
  same_spec = λ a b. true;
  sha256 = λ bytes. if starts_with_two bytes then "h2" else "h1";
  read = λ p. if is_report p then 2 ∷ [] else 1 ∷ [];
  relative = λ p q. [];
  parse = λ j. some (manifest (record { path = "report.json" ∷ []; sha256 = report_hash }));
}

abbrev ended : Db
ended = record cycle {
  runs =
      record (run_with "0" none) {
        status = RunStatus.succeeded;
        body = record (run_with "0" none).body { manifest = some (Json.str "m") };
      }
      ∷ [];
}

report_found :
    artifact (python "h2") disk ("srv" ∷ []) "p" "0" "report" ended
    ≡ ok ("srv" ∷ "p" ∷ "runs" ∷ "0" ∷ "report.json" ∷ [])
unfolding artifact verify verify_manifest run_directory hash_path contained_path get
report_found = refl

report_changed :
    artifact (python "h1") disk ("srv" ∷ []) "p" "0" "output" ended
    ≡ err (conflict "Artifact integrity verification failed")
unfolding artifact verify verify_manifest run_directory hash_path contained_path get
report_changed = refl

artifact-Published_example :
    (m : RunManifest) × (item : Artifact) × (directory : Location) × Published
      (python "h2")
      disk
      ("srv" ∷ [])
      "p"
      "0"
      ended
      m
    × (named "report" m.artifacts ≡ ok item)
    × (run_directory (python "h2") disk ("srv" ∷ []) "p" "0" ≡ ok directory)
    × Intact (python "h2") disk directory item ("srv" ∷ "p" ∷ "runs" ∷ "0" ∷ "report.json" ∷ [])
artifact-Published_example =
    artifact-Published (python "h2") disk ("srv" ∷ []) "p" "0" ended "report"
      ("srv" ∷ "p" ∷ "runs" ∷ "0" ∷ "report.json" ∷ []) report_found
