-- ===== src/Security/Paths.antt =====
-- buffdata/security/policy.py: the paths that an artifact or an input may have, and the limits on the
-- size of an input. A path is the list of its parts after `absolute()`.
mod Files
pub mod Limits
pub mod Examples
use buffdata.Prelude.{
  [], none, some, true, false, zero, suc, refl, ℕ, String, List, Bool, if◌then◌else◌, Option, ltb,
  ◌∷◌, is_empty, any, not, ◌+◌, ◌||◌, map, ◌==◌, ◌&&◌, string_eq,
}
use buffdata.Prelude.Exec.{Result, err, ok}
use Prim.Native.Nat.{min}

abbrev pub Location : Type 0
Location = List String

-- What is asked of `pathlib`, `gzip` and the disk. `rows` has the length of each line of a file and
-- `blocks` the length of each block, both after decompression where the file is compressed.
pub record Disk : Type 0 where
  pub is_symlink : Location → Bool
  pub resolve : Location → Location
  pub exists : Location → Bool
  pub is_dir : Location → Bool
  pub is_file : Location → Bool
  pub rglob : Location → List Location
  pub parent : Location → Location
  pub ends_with : Location → String → Bool
  pub size : Location → ℕ
  pub rows : Location → List ℕ
  pub blocks : Location → List ℕ

pub data PathError : Type 0 where
  symbolic_link outside_project outside_roots not_regular : PathError
  record_too_large expanded_too_large file_too_large : PathError

-- The part of `SecurityPolicy` that is about files.
pub record FilePolicy : Type 0 where
  pub read_roots : List Location
  pub write_roots : List Location
  pub max_upload_bytes : ℕ
  pub max_expanded_bytes : ℕ
  pub max_record_bytes : ℕ

-- The path itself and its `parents`.
abbrev pub prefixes : Location → List Location
prefixes [] = [] ∷ []
prefixes (x ∷ xs) = [] ∷ map (λ p. x ∷ p) (prefixes xs)

-- `path.is_relative_to(root)`
abbrev pub is_relative_to : Location → Location → Bool
is_relative_to path [] = true
is_relative_to [] (r ∷ root) = false
is_relative_to (x ∷ path) (r ∷ root) = (x == r) && is_relative_to path root

abbrev pub escapes : Disk → Option Location → Location → Bool
escapes d none resolved = false
escapes d (some root) resolved = not (is_relative_to resolved (d.resolve root))

-- `contained_path`
unfoldable pub contained_path : Disk → Option Location → Location → Result PathError Location
contained_path d root path =
    if any d.is_symlink (prefixes path)
    then err symbolic_link
    else if escapes d root (d.resolve path)
    then err outside_project
    else ok (d.resolve path)

abbrev pub roots_of : Option FilePolicy → Bool → List Location
roots_of none write = []
roots_of (some p) write = if write then p.write_roots else p.read_roots

abbrev pub in_roots : Disk → List Location → Location → Bool
in_roots d roots path = is_empty roots || any (λ r. is_relative_to path (d.resolve r)) roots

abbrev pub rooted : Disk → List Location → Result PathError Location → Result PathError Location
rooted d roots (err e) = err e
rooted d roots (ok p) = if in_roots d roots p then ok p else err outside_roots

-- `check_path`, under the policy of the current execution if there is one.
unfoldable pub check_path : Disk → Option FilePolicy → Bool → Location → Result PathError Location
check_path d ctx write path = rooted d (roots_of ctx write) (contained_path d none path)

abbrev pub record_endings : List String
record_endings = ".jsonl" ∷ ".ndjson" ∷ ".txt" ∷ ".jsonl.gz" ∷ ".ndjson.gz" ∷ ".txt.gz" ∷ []

abbrev pub is_records : Disk → Location → Bool
is_records d file = any (d.ends_with file) record_endings

-- The loop over the lines: `readline` stops one byte after the longest line that is accepted.
abbrev pub rows_check : FilePolicy → ℕ → List ℕ → Result PathError Unit
rows_check p expanded [] = ok tt
rows_check p expanded (n ∷ ns) =
    let line = min n (p.max_record_bytes + 1) in
    let rest = rows_check p (expanded + line) ns in
    if ltb p.max_record_bytes line
    then err record_too_large
    else if ltb p.max_expanded_bytes (expanded + line)
    then err expanded_too_large
    else rest

-- The loop over the blocks of a compressed file.
abbrev pub blocks_check : FilePolicy → ℕ → List ℕ → Result PathError ℕ
blocks_check p total [] = ok total
blocks_check p total (n ∷ ns) =
    let rest = blocks_check p (total + n) ns in
    if ltb p.max_expanded_bytes (total + n) then err expanded_too_large else rest

abbrev pub records_check : Disk → FilePolicy → Location → Result PathError Unit
records_check d p file = if is_records d file then rows_check p 0 (d.rows file) else ok tt

abbrev pub limited : FilePolicy → Result PathError ℕ → Result PathError ℕ
limited p (err e) = err e
limited p (ok total) = if ltb p.max_expanded_bytes total then err expanded_too_large else ok total

-- The part of the loop after the lines.
abbrev pub sizes_check : Disk → FilePolicy → ℕ → Location → Result PathError ℕ
sizes_check d p total file =
    if ltb p.max_upload_bytes (d.size file)
    then err file_too_large
    else limited p (
        if d.ends_with file ".gz"
        then blocks_check p total (d.blocks file)
        else ok (total + d.size file))

abbrev pub after_records : Result PathError Unit → Result PathError ℕ → Result PathError ℕ
after_records (err e) rest = err e
after_records (ok done) rest = rest

abbrev pub after_contained :
    Disk → FilePolicy → ℕ → Location → Result PathError Location → Result PathError ℕ
after_contained d p total file (err e) = err e
after_contained d p total file (ok resolved) =
    if d.is_dir file
    then ok total
    else if not (d.is_file file)
    then err not_regular
    else after_records (records_check d p file) (sizes_check d p total file)

-- One file of the input: the total with it.
abbrev pub file_check : Disk → FilePolicy → Location → ℕ → Location → Result PathError ℕ
file_check d p base total file = after_contained d p total file (contained_path d (some base) file)

abbrev pub next_files : (ℕ → Result PathError Unit) → Result PathError ℕ → Result PathError Unit
next_files go_on (err e) = err e
next_files go_on (ok total) = go_on total

abbrev pub files_check : Disk → FilePolicy → Location → List Location → ℕ → Result PathError Unit
files_check d p base [] total = ok tt
files_check d p base (file ∷ files) total =
    next_files (files_check d p base files) (file_check d p base total file)

-- `policy or (current_context().policy if current_context() else SecurityPolicy())`
abbrev pub policy_of : Option FilePolicy → Option FilePolicy → FilePolicy → FilePolicy
policy_of (some p) ctx defaults = p
policy_of none (some p) defaults = p
policy_of none none defaults = defaults

abbrev pub input_files : Disk → Location → List Location
input_files d path = if d.is_dir path then d.rglob path else path ∷ []

abbrev pub input_base : Disk → Location → Location
input_base d path = if d.is_dir path then path else d.parent path

abbrev pub checked_input :
    Disk → FilePolicy → Location → Result PathError Unit → Result PathError Location
checked_input d p path (err e) = err e
checked_input d p path (ok done) = ok path

abbrev pub input_after : Disk → FilePolicy → Result PathError Location → Result PathError Location
input_after d p (err e) = err e
input_after d p (ok q) = checked_input d p q (files_check d p (input_base d q) (input_files d q) 0)

-- `check_input`
unfoldable pub check_input :
    Disk → Option FilePolicy → FilePolicy → Option FilePolicy → Location → Result PathError Location
check_input d ctx defaults policy path =
    input_after d (policy_of policy ctx defaults) (check_path d ctx false path)
