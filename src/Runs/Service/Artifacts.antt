-- ===== src/Runs/Service/Artifacts.antt =====
-- buffdata/runs/service.py: the directory of a run, the hash of a file, and the checks of a run's
-- published artifacts.
pub mod Intact
pub mod Verified
pub mod Examples
use buffdata.Prelude.{
  [], none, some, true, false, zero, suc, refl, ℕ, String, List, Bool, if◌then◌else◌, leb, ◌||◌,
  all, ◌&&◌, any, Option, ◌∷◌, length, ◌==◌, not, ◌++◌, string_eq, nat_eq,
}
use buffdata.Security.Paths.{Location, Disk, PathError, contained_path, input_files, input_base}
use buffdata.Prelude.Json.{Json, Fields}
use buffdata.Prelude.Exec.{Result, ok, err}
use buffdata.Runs.Store.{RunView}
use buffdata.Runs.Models.{StoreError, RunSpec, RunStatus, status_eq}
use buffdata.Runs.Tables.{Db}
use buffdata.Runs.Service.Lineage.{run_of}
use buffdata.Runs.Service.{
  ServiceError, conflict, of_path, value_error, key_missing, and_then, found,
}

-- A parsed manifest. `accepted` is the truth of `metrics["accuracy_gate"]["accepted"]`, false where
-- one of these is missing.
pub record Artifact : Type 0 where
  pub path : Location
  pub sha256 : String

pub record RunManifest : Type 0 where
  pub run_id : String
  pub project_id : String
  pub spec : RunSpec
  pub implementation : Json
  pub inputs : Json
  pub artifacts : List (String × Artifact)
  pub accepted : Bool

-- What is asked of Python: the codes of the characters of a text, `==` of dictionaries and of dumped
-- specifications, SHA-256, the bytes of a file and of its path under a directory, and the parsing of a
-- stored manifest, which raises where it has another form.
pub record Python : Type 0 where
  pub codes : String → List ℕ
  pub same_json : Json → Json → Bool
  pub same_spec : RunSpec → RunSpec → Bool
  pub sha256 : List ℕ → String
  pub read : Location → List ℕ
  pub relative : Location → Location → List ℕ
  pub parse : Json → Option RunManifest

abbrev pub between : ℕ → ℕ → ℕ → Bool
between low high n = leb low n && leb n high

-- `[a-zA-Z0-9_-]`
abbrev pub is_id_code : ℕ → Bool
is_id_code n = between 97 122 n || between 65 90 n || between 48 57 n || n == 95 || n == 45

-- `[a-f0-9]`
abbrev pub is_hex_code : ℕ → Bool
is_hex_code n = between 97 102 n || between 48 57 n

abbrev pub is_project_id : Python → String → Bool
is_project_id py s = all is_id_code (py.codes s) && between 1 64 (length (py.codes s))

abbrev pub is_run_id : Python → String → Bool
is_run_id py s = all is_hex_code (py.codes s) && length (py.codes s) == 32

abbrev pub path_result : {A : Type 0} → Result PathError A → Result ServiceError A
path_result (err e) = err (of_path e)
path_result (ok a) = ok a

abbrev pub contained : Disk → Location → Location → Result ServiceError Location
contained d root path = path_result (contained_path d (some root) path)

-- `project_root`
abbrev pub project_root : Python → Disk → Location → String → Result ServiceError Location
project_root py d root project =
    if not (is_project_id py project)
    then err (value_error "Invalid project ID")
    else contained d root (root ++ project ∷ [])

-- `run_directory`
unfoldable pub run_directory :
    Python → Disk → Location → String → String → Result ServiceError Location
run_directory py d root project run_id =
    if not (is_run_id py run_id)
    then err (value_error "Invalid run ID")
    else and_then (project_root py d root project)
        (λ base. contained d base (base ++ "runs" ∷ run_id ∷ []))

abbrev pub prepended : List ℕ → Result ServiceError (List ℕ) → Result ServiceError (List ℕ)
prepended bytes (err e) = err e
prepended bytes (ok more) = ok (bytes ++ more)

-- What is hashed of one file: its path ahead of it where a directory is hashed.
abbrev pub file_part : Python → Disk → Location → Location → List ℕ
file_part py d path child =
    (if d.is_dir path then py.relative path child ++ 0 ∷ [] else []) ++ py.read child

abbrev pub hashed_file :
    Python
    → Disk
    → Location
    → Location
    → Result ServiceError (List ℕ)
    → Result ServiceError Location
    → Result ServiceError (List ℕ)
hashed_file py d path child rest (err e) = err e
hashed_file py d path child rest (ok p) =
    if d.is_dir child
    then rest
    else if not (d.is_file child)
    then err (value_error "Artifact is not a regular file")
    else prepended (file_part py d path child) rest

abbrev pub hashed_bytes : Python → Disk → Location → List Location → Result ServiceError (List ℕ)
hashed_bytes py d path [] = ok []
hashed_bytes py d path (child ∷ files) =
    let rest = hashed_bytes py d path files in
    hashed_file py d path child rest (contained d (input_base d path) child)

abbrev pub digested : Python → Result ServiceError (List ℕ) → Result ServiceError String
digested py (err e) = err e
digested py (ok bytes) = ok (py.sha256 bytes)

-- `hash_path`
unfoldable pub hash_path : Python → Disk → Location → Result ServiceError String
hash_path py d path =
    and_then (path_result (contained_path d none path))
      (λ _. digested py (hashed_bytes py d path (input_files d path)))

abbrev pub has_key : String → List (String × Artifact) → Bool
has_key name entries = any (λ e. e.0 == name) entries

abbrev pub hash_matches : Artifact → Result ServiceError String → Result ServiceError Unit
hash_matches item (err e) = err e
hash_matches item (ok h) =
    if not (h == item.sha256)
    then err (conflict "Artifact integrity verification failed")
    else ok tt

abbrev pub item_check : Python → Disk → Artifact → Location → Result ServiceError Unit
item_check py d item path =
    if not (d.exists path)
    then err (conflict "Artifact integrity verification failed")
    else hash_matches item (hash_path py d path)

abbrev pub artifacts_check :
    Python → Disk → Location → List (String × Artifact) → Result ServiceError Unit
artifacts_check py d directory [] = ok tt
artifacts_check py d directory (e ∷ es) =
    let rest = artifacts_check py d directory es in
    and_then (and_then (contained d directory (directory ++ e.1.path)) (item_check py d e.1))
      (λ _. rest)

-- The checks against the row of the run.
abbrev pub identity_check :
    Python → String → String → RunManifest → RunView → Result ServiceError Unit
identity_check py project run_id m run =
    if not (m.run_id == run_id)
      || not (m.project_id == project)
      || not (py.same_spec m.spec run.body.spec)
    then err (conflict "Manifest does not match run identity")
    else if not (py.same_json m.implementation run.body.implementation)
        || not (py.same_json m.inputs run.body.inputs)
    then err (conflict "Manifest provenance does not match submission")
    else if m.spec.require_positive_gain && not m.accepted
    then err (conflict "Required accuracy gate is absent or did not pass")
    else ok tt

abbrev pub required : List (String × Artifact) → Bool
required entries =
    has_key "output" entries && has_key "rejected" entries && has_key "report" entries

-- `verify_manifest` of a manifest that is parsed.
unfoldable pub verify_manifest :
    Python → Disk → Location → String → String → RunManifest → Db → Result ServiceError RunManifest
verify_manifest py d root project run_id m s = and_then (found (run_of project s run_id)) (λ run.
    and_then (identity_check py project run_id m run) (λ _.
      and_then (run_directory py d root project run_id) (λ directory.
        if not (required m.artifacts)
        then err (conflict "Manifest is missing required artifacts")
        else and_then (artifacts_check py d directory m.artifacts) (λ _. ok m))))

abbrev pub parsed : Python → Json → Result ServiceError RunManifest
parsed py j = elim (py.parse j) [ none ↦ err (value_error "manifest") | some m ↦ ok m ]

abbrev pub no_artifacts : ServiceError
no_artifacts = conflict "Run has no published artifacts"

-- `run.get("manifest")` where it is neither missing nor empty.
abbrev pub manifest_of : Option Json → Result ServiceError Json
manifest_of none = err no_artifacts
manifest_of (some Json.null) = err no_artifacts
manifest_of (some (Json.obj Fields.end)) = err no_artifacts
manifest_of (some j) = ok j

-- The manifest that `verify` looks at: a run without one, or in another status, has no artifacts.
abbrev pub published : RunView → Result ServiceError Json
published run =
    if not (run.status == RunStatus.succeeded)
    then err no_artifacts
    else manifest_of run.body.manifest

-- `verify`; what it returns is the number of artifacts, with the parsed manifest in its place here.
unfoldable pub verify :
    Python → Disk → Location → String → String → Db → Result ServiceError RunManifest
verify py d root project run_id s = and_then (found (run_of project s run_id)) (λ run.
    and_then (published run)
      (λ j. and_then (parsed py j) (λ m. verify_manifest py d root project run_id m s)))

-- `manifest["artifacts"][name]`
abbrev pub named : String → List (String × Artifact) → Result ServiceError Artifact
named name [] = err (key_missing "Artifact not found")
named name (e ∷ es) = if e.0 == name then ok e.1 else named name es

-- `artifact`
unfoldable pub artifact :
    Python → Disk → Location → String → String → String → Db → Result ServiceError Location
artifact py d root project run_id name s = and_then (verify py d root project run_id s) (λ m.
    and_then (named name m.artifacts) (λ item.
      and_then (run_directory py d root project run_id)
        (λ directory. contained d directory (directory ++ item.path))))
