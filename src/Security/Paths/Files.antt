-- ===== src/Security/Paths/Files.antt =====
-- Which files may stand in an input, and what the loop over them accepts.
use buffdata.Prelude.{
  [], some, true, false, refl, ℕ, List, ◌∷◌, ◌≤◌, Bool, all, ◌+◌, if◌then◌else◌, ◌&&◌, ◌≡◌, ◌<◌,
  leb, ◌||◌, arith, not, if_cases, ltb, Bool-cases, inl, sym, inr,
}
use buffdata.Security.Paths.{
  Disk, FilePolicy, Location, PathError, contained_path, rows_check, blocks_check, is_records,
  limited, sizes_check, after_contained, files_check, records_check, after_records, next_files,
  file_check,
}
use buffdata.Prelude.Exec.{Result, ok, err}
use Prim.Native.Nat.{min}
use mathlib.Core.Path.{subst}

abbrev pub is_ok : {A : Type 0} → Result PathError A → Bool
is_ok (ok a) = true
is_ok (err e) = false

abbrev pub sum : List ℕ → ℕ
sum [] = 0
sum (n ∷ ns) = n + sum ns

abbrev pub stored_bytes : Disk → Location → ℕ
stored_bytes d file = if d.ends_with file ".gz" then sum (d.blocks file) else d.size file

abbrev pub file_bytes : Disk → Location → ℕ
file_bytes d file = if d.is_dir file then 0 else stored_bytes d file

-- The bytes of an input, those of a compressed file after decompression.
abbrev pub input_bytes : Disk → List Location → ℕ
input_bytes d [] = 0
input_bytes d (file ∷ files) = file_bytes d file + input_bytes d files

-- A file of records has no line above the limit and, expanded, no more bytes than the limit.
abbrev pub rows_fit : FilePolicy → List ℕ → Bool
rows_fit p rows = all (λ n. leb n p.max_record_bytes) rows && leb (sum rows) p.max_expanded_bytes

-- A file that may stand in an input: a directory, or a regular file within the limits of one file.
abbrev pub content_fits : Disk → FilePolicy → Location → Bool
content_fits d p file =
    d.is_dir file
    || (d.is_file file
        && (not (is_records d file) || rows_fit p (d.rows file))
        && leb (d.size file) p.max_upload_bytes)

abbrev pub file_fits : Disk → FilePolicy → Location → Location → Bool
file_fits d p base file = is_ok (contained_path d (some base) file) && content_fits d p file

module _ (p : FilePolicy) where
  rows_check-fit :
      (rows : List ℕ) (expanded : ℕ)
      → expanded ≤ p.max_expanded_bytes
      → is_ok (rows_check p expanded rows) ≡ (
          all (λ n. leb n p.max_record_bytes) rows
          && leb (expanded + sum rows) p.max_expanded_bytes)
  rows_check-fit [] expanded h = ground (arith, h)
  rows_check-fit (n ∷ ns) expanded h =
      ground (arith, h, rows_check-fit ns (expanded + min n (p.max_record_bytes + 1)))

  abbrev Totals : ℕ → Result PathError ℕ → Type 0
  Totals total (err e) = p.max_expanded_bytes < total
  Totals total (ok t) = (t ≡ total) × (total ≤ p.max_expanded_bytes)

  blocks_check-Totals :
      (blocks : List ℕ) (total : ℕ)
      → total ≤ p.max_expanded_bytes
      → Totals (total + sum blocks) (blocks_check p total blocks)
  blocks_check-Totals [] total h = (ground arith, ground (arith, h))
  blocks_check-Totals (n ∷ ns) total h =
      if_cases (Totals (total + sum (n ∷ ns))) (ltb p.max_expanded_bytes (total + n)) _ _
        (λ e. ground (arith, e))
        (λ e.
          subst (λ m. Totals m (blocks_check p (total + n) ns)) (omega arith)
            (blocks_check-Totals ns (total + n) (ground (arith, e))))

  limited-Totals :
      (total : ℕ) (r : Result PathError ℕ) → Totals total r → Totals total (limited p r)
  limited-Totals total (err e) h = h
  limited-Totals total (ok t) h =
      if_cases (Totals total) (ltb p.max_expanded_bytes t) _ _ (λ e. ground (arith, e, h)) (λ e. h)

  single-Totals : (total : ℕ) → Totals total (limited p (ok total))
  single-Totals total =
      if_cases (Totals total) (ltb p.max_expanded_bytes total) _ _ (λ e. ground (arith, e))
        (λ e. (refl, ground (arith, e)))

  -- The total after a file, or why the file is refused.
  abbrev Accounts : Bool → ℕ → Result PathError ℕ → Type 0
  Accounts fits total (err e) = fits && leb total p.max_expanded_bytes ≡ false
  Accounts fits total (ok t) = (fits ≡ true) × (t ≡ total) × (total ≤ p.max_expanded_bytes)

  Totals-Accounts :
      (fits : Bool) (total : ℕ) (r : Result PathError ℕ)
      → fits ≡ true
      → Totals total r
      → Accounts fits total r
  Totals-Accounts fits total (err e) f h = ground (arith, f, h)
  Totals-Accounts fits total (ok t) f h = (f, h.0, h.1)

module _ (d : Disk) (p : FilePolicy) (base : Location) where
  stored-Totals :
      (total : ℕ) (file : Location)
      → total ≤ p.max_expanded_bytes
      → Totals p (total + stored_bytes d file) (
          limited p (
            if d.ends_with file ".gz"
            then blocks_check p total (d.blocks file)
            else ok (total + d.size file)))
  stored-Totals total file h = elim (Bool-cases (d.ends_with file ".gz")) [
    | inl e ↦ rw e (
        limited-Totals p (total + sum (d.blocks file)) (blocks_check p total (d.blocks file))
          (blocks_check-Totals p (d.blocks file) total h))
    | inr e ↦ rw e (single-Totals p (total + d.size file))
  ]

  sizes_check-Accounts :
      (total : ℕ) (file : Location)
      → total ≤ p.max_expanded_bytes
      → Accounts p
          (leb (d.size file) p.max_upload_bytes)
          (total + stored_bytes d file)
          (sizes_check d p total file)
  sizes_check-Accounts total file h =
      let fits = leb (d.size file) p.max_upload_bytes in
      if_cases (Accounts p fits (total + stored_bytes d file))
        (ltb p.max_upload_bytes (d.size file)) _ _ (λ e. ground (arith, e))
        (λ e.
          Totals-Accounts p fits (total + stored_bytes d file) _ (ground (arith, e))
            (stored-Totals total file h))

  after_records-Accounts :
      (fits : Bool) (total : ℕ) (rows : Result PathError Unit) (sizes : Result PathError ℕ)
      → Accounts p fits total sizes
      → Accounts p (is_ok rows && fits) total (after_records rows sizes)
  after_records-Accounts fits total (ok done) sizes h = h
  after_records-Accounts fits total (err e) sizes h = refl

  records_check-fit :
      (file : Location)
      → is_ok (records_check d p file) ≡ (not (is_records d file) || rows_fit p (d.rows file))
  records_check-fit file = elim (Bool-cases (is_records d file)) [
    | inl e ↦ rw e (ground (arith, rows_check-fit p (d.rows file) 0))
    | inr e ↦ rw e refl
  ]

  regular-Accounts :
      (total : ℕ) (file : Location)
      → total ≤ p.max_expanded_bytes
      → Accounts p
          ((not (is_records d file) || rows_fit p (d.rows file))
            && leb (d.size file) p.max_upload_bytes)
          (total + stored_bytes d file)
          (after_records (records_check d p file) (sizes_check d p total file))
  regular-Accounts total file h = rw (sym (records_check-fit file)) (
      after_records-Accounts (leb (d.size file) p.max_upload_bytes) (total + stored_bytes d file)
        (records_check d p file) (sizes_check d p total file) (sizes_check-Accounts total file h))

  contained-Accounts :
      (total : ℕ) (file : Location)
      → total ≤ p.max_expanded_bytes
      → (r : Result PathError Location)
      → Accounts p
          (is_ok r && content_fits d p file)
          (total + file_bytes d file)
          (after_contained d p total file r)
  contained-Accounts total file h (err e) = refl
  contained-Accounts total file h (ok q) = elim (Bool-cases (d.is_dir file)) [
    | inl e ↦ rw e (refl, omega arith, ground (arith, h))
    | inr e ↦ elim (Bool-cases (d.is_file file)) [
      | inr f ↦ rw (e, f) refl
      | inl f ↦ rw (e, f) (regular-Accounts total file h)
    ]
  ]

  next_files-ok :
      (files : List Location) (fits rest : Bool) (total bytes : ℕ) (r : Result PathError ℕ)
      → Accounts p fits (total + bytes) r
      → ((t : ℕ)
          → t ≤ p.max_expanded_bytes
          → is_ok (files_check d p base files t)
            ≡ (rest && leb (t + input_bytes d files) p.max_expanded_bytes))
      → is_ok (next_files (files_check d p base files) r)
        ≡ ((fits && rest) && leb (total + (bytes + input_bytes d files)) p.max_expanded_bytes)
  next_files-ok files fits rest total bytes (err e) h go_on = ground (arith, h)
  next_files-ok files fits rest total bytes (ok t) h go_on = ground (arith, h, go_on t)

  pub files_check-ok :
      (files : List Location) (total : ℕ)
      → total ≤ p.max_expanded_bytes
      → is_ok (files_check d p base files total)
        ≡ (all (file_fits d p base) files && leb (total + input_bytes d files) p.max_expanded_bytes)
  files_check-ok [] total h = ground (arith, h)
  files_check-ok (file ∷ files) total h =
      next_files-ok files (file_fits d p base file) (all (file_fits d p base) files) total
        (file_bytes d file) (file_check d p base total file)
        (contained-Accounts total file h (contained_path d (some base) file))
        (λ t k. files_check-ok files t k)
