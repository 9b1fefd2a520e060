-- ===== src/Runs/Service/Prepare.antt =====
-- buffdata/runs/service.py: `prepare`, which takes snapshots of the inputs of a claimed run. What is on disk
-- once a file has been copied is a parameter, and a later step reads it there. The description of the execution that is written beside the copies is left out.
pub mod Prepared
pub mod Kept
use buffdata.Prelude.{
  [], none, some, true, false, zero, suc, refl, ℕ, String, Option, ◌∷◌, if◌then◌else◌, ◌==◌, not,
  string_eq, ◌++◌,
}
use buffdata.Security.Paths.{Location, contained_path}
use buffdata.Runs.Service.Resume.{Host, ServiceCall, policy, give, call, dataset_path, text_at}
use buffdata.Prelude.Exec.{Result, err, pure, ◌>>=◌, ok, raise, ◌>>◌}
use buffdata.Runs.Service.{ServiceError, conflict, and_then}
use buffdata.Runs.Tables.{RunBody, Outside}
use buffdata.Runs.Sessions.{KeyManager, get_or_create_data_key}
use buffdata.Runs.Service.Artifacts.{hash_path, run_directory, path_result}

-- The files once the source has been copied to the target.
abbrev pub with_copy : Host → Location → Location → Host
with_copy h source target = record h {
  python = record h.python { read = (h.copied h.python h.disk source target).0 };
  disk = (h.copied h.python h.disk source target).1;
}

abbrev pub copy_snapshot : Host → Location → Location → Result ServiceError Host
copy_snapshot h source target = and_then (path_result (contained_path h.disk none source)) (λ _.
    if h.disk.exists target
    then err (conflict "Snapshot destination already exists")
    else ok (with_copy h source target))

-- `source.name`
abbrev pub last_part : Location → Location
last_part [] = []
last_part (x ∷ []) = x ∷ []
last_part (x ∷ y ∷ ys) = last_part (y ∷ ys)

-- The hash of a copy is compared with the hash that was submitted.
abbrev pub compared : Host → Location → String → RunBody → ServiceCall Unit
compared h target kind body = do
  actual ← give (hash_path h.python h.disk target)
  sha256 ← give (text_at kind body.inputs)
  if not (actual == sha256)
      then raise (conflict "Snapshot no longer matches submitted input")
      else pure tt

-- One input, and the files once it has been copied.
abbrev pub prepared_input :
    Host → String → Location → RunBody → String → Option String → ServiceCall Host
prepared_input h project directory body kind none = pure h
prepared_input h project directory body kind (some dataset_id) =
    if dataset_id == "" then pure h else (do
      source ← dataset_path h project dataset_id
      copy ← give (copy_snapshot h source (directory ++ kind ∷ last_part source))
      compared copy (directory ++ kind ∷ last_part source) kind body
      pure copy)

abbrev pub run_key : Option KeyManager → Outside → String → ServiceCall (Option String)
run_key none o project = pure none
run_key (some k) o project = do key ← call (get_or_create_data_key k o project); pure (some key)

-- The checkpoint of the parent run is copied where it is there.
abbrev pub checkpoint_copied : Host → Location → Location → Result ServiceError Host
checkpoint_copied h directory previous =
    if h.disk.exists (previous ++ ".optimized.checkpoint.json" ∷ [])
    then copy_snapshot h (previous ++ ".optimized.checkpoint.json" ∷ [])
        (directory ++ ".optimized.checkpoint.json" ∷ [])
    else ok h

abbrev pub parent_copied : Host → String → Location → Option String → Result ServiceError Host
parent_copied h project directory none = ok h
parent_copied h project directory (some parent) =
    if parent == ""
    then ok h
    else and_then (run_directory h.python h.disk h.root project parent)
        (checkpoint_copied h directory)

abbrev pub prepare_in :
    Host → Option KeyManager → Outside → RunBody → ServiceCall (Location × Option String)
prepare_in h keys o body = do
  directory ← give (run_directory h.python h.disk h.root body.spec.project_id body.id)
  h1 ← prepared_input h body.spec.project_id directory body "source" (some body.spec.dataset_id)
  h2 ←
      prepared_input h1 body.spec.project_id directory body "validation"
        body.spec.validation_dataset_id
  give (parent_copied h2 body.spec.project_id directory body.parent_run_id)
  key ← run_key keys o body.spec.project_id
  pure (directory, key)

-- `prepare`: the directory of the run, and the data key of its project where artifacts are encrypted.
unfoldable pub prepare :
    Host → Option KeyManager → Outside → RunBody → ServiceCall (Location × Option String)
prepare h keys o body = do
  p ← policy body.spec.project_id
  identity ← give (h.identity p)
  if not (h.python.same_json identity body.implementation)
      then raise (conflict "Execution environment changed since submission")
      else prepare_in h keys o body
