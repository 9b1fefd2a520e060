-- ===== src/Security/Paths/Examples.antt =====
-- Tests of an input that is a directory with a compressed file of records.
use buffdata.Prelude.{[], none, some, true, refl, ℕ, String, ◌==◌, ◌∷◌, ◌||◌, ◌&&◌, ◌≡◌, string_eq}
use buffdata.Security.Paths.{
  Disk, FilePolicy, Location, check_input, check_path, contained_path, in_roots, outside_roots,
  symbolic_link, expanded_too_large,
}
use buffdata.Security.Paths.Limits.{Takes, is_contained, input_fits, check_input-Takes}
use buffdata.Prelude.Exec.{ok, err}

abbrev name_of : Location → String
name_of [] = ""
name_of (x ∷ []) = x
name_of (x ∷ y ∷ ys) = name_of (y ∷ ys)

abbrev small_disk : Disk
small_disk = record {
  is_symlink = λ p. name_of p == "link";
  resolve = λ p. p;
  exists = λ p. true;
  is_dir = λ p. name_of p == "in";
  is_file = λ p. (name_of p == "a.jsonl.gz") || (name_of p == "b.parquet") || (name_of p == "link");
  rglob = λ p. ("data" ∷ "in" ∷ "a.jsonl.gz" ∷ []) ∷ ("data" ∷ "in" ∷ "b.parquet" ∷ []) ∷ [];
  parent = λ p. [];
  ends_with = λ p e. (name_of p == "a.jsonl.gz") && ((e == ".jsonl.gz") || (e == ".gz"));
  size = λ p. 4;
  rows = λ p. 3 ∷ 5 ∷ [];
  blocks = λ p. 6 ∷ 2 ∷ [];
}

abbrev allowing : ℕ → FilePolicy
allowing n = record {
  read_roots = ("data" ∷ []) ∷ [];
  write_roots = [];
  max_upload_bytes = 4;
  max_expanded_bytes = n;
  max_record_bytes = 5;
}

twelve_bytes :
    check_input small_disk none (allowing 12) none ("data" ∷ "in" ∷ []) ≡ ok ("data" ∷ "in" ∷ [])
unfolding check_input check_path contained_path
twelve_bytes = refl

eleven_allowed :
    check_input small_disk none (allowing 12) (some (allowing 11)) ("data" ∷ "in" ∷ [])
    ≡ err expanded_too_large
unfolding check_input check_path contained_path
eleven_allowed = refl

link_refused :
    check_input small_disk none (allowing 12) none ("data" ∷ "link" ∷ []) ≡ err symbolic_link
unfolding check_input check_path contained_path
link_refused = refl

other_root :
    check_input small_disk (some (allowing 12)) (allowing 12) none ("etc" ∷ "in" ∷ [])
    ≡ err outside_roots
unfolding check_input check_path contained_path
other_root = refl

check_input-Takes_example :
    Takes
      ((is_contained small_disk none ("data" ∷ "in" ∷ [])
          && in_roots small_disk [] ("data" ∷ "in" ∷ []))
        && input_fits small_disk (allowing 12) ("data" ∷ "in" ∷ []))
      ("data" ∷ "in" ∷ [])
      (check_input small_disk none (allowing 12) none ("data" ∷ "in" ∷ []))
check_input-Takes_example =
    check_input-Takes small_disk none (allowing 12) none ("data" ∷ "in" ∷ [])
