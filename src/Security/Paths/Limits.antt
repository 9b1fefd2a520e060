-- ===== src/Security/Paths/Limits.antt =====
-- Which inputs are accepted.
use buffdata.Prelude.{
  none, true, false, refl, List, Bool, all, ◌&&◌, ◌≡◌, leb, arith, not, if_cases, Option, sym, any,
}
use buffdata.Security.Paths.{
  Disk, FilePolicy, Location, PathError, contained_path, files_check, policy_of, check_input,
  check_path, input_base, input_files, checked_input, input_after, in_roots, roots_of, rooted,
  prefixes, escapes,
}
use buffdata.Prelude.Exec.{Result, ok, err}
use mathlib.Core.Path.{subst}
use buffdata.Security.Paths.Files.{file_fits, is_ok, input_bytes, files_check-ok}

-- A path that is returned is this one, and it is returned just where the test holds.
abbrev pub Takes : Bool → Location → Result PathError Location → Type 0
Takes test q (ok r) = (test ≡ true) × (r ≡ q)
Takes test q (err e) = test ≡ false

abbrev pub is_contained : Disk → Option Location → Location → Bool
is_contained d root path =
    not (any d.is_symlink (prefixes path)) && not (escapes d root (d.resolve path))

pub contained_path-Takes :
    (d : Disk) (root : Option Location) (path : Location)
    → Takes (is_contained d root path) (d.resolve path) (contained_path d root path)
unfolding contained_path
contained_path-Takes d root path =
    if_cases (Takes (is_contained d root path) (d.resolve path)) (any d.is_symlink (prefixes path))
      _ _ (λ e. ground (arith, e))
      (λ e.
        if_cases (Takes (is_contained d root path) (d.resolve path))
          (escapes d root (d.resolve path)) _ _ (λ f. ground (arith, e, f))
          (λ f. (ground (arith, e, f), refl)))

rooted-Takes :
    (d : Disk) (roots : List Location) (test : Bool) (q : Location) (r : Result PathError Location)
    → Takes test q r
    → Takes (test && in_roots d roots q) q (rooted d roots r)
rooted-Takes d roots test q (err e) h = ground (arith, h)
rooted-Takes d roots test q (ok r) h = rw (h.1) (
    if_cases (Takes (test && in_roots d roots q) q) (in_roots d roots q) _ _
      (λ e. (ground (arith, e, h.0), refl)) (λ e. ground (arith, e, h.0)))

checked_input-Takes :
    (d : Disk) (p : FilePolicy) (q : Location) (test files : Bool) (r : Result PathError Unit)
    → test ≡ true
    → is_ok r ≡ files
    → Takes (test && files) q (checked_input d p q r)
checked_input-Takes d p q test files (err e) h k = ground (arith, h, k)
checked_input-Takes d p q test files (ok done) h k = (ground (arith, h, k), refl)

-- What an input at a resolved path has to be.
abbrev pub input_fits : Disk → FilePolicy → Location → Bool
input_fits d p q =
    all (file_fits d p (input_base d q)) (input_files d q)
    && leb (input_bytes d (input_files d q)) p.max_expanded_bytes

input_fits-ok :
    (d : Disk) (p : FilePolicy) (q : Location)
    → is_ok (files_check d p (input_base d q) (input_files d q) 0) ≡ input_fits d p q
input_fits-ok d p q = ground (arith, files_check-ok d p (input_base d q) (input_files d q) 0)

input_after-Takes :
    (d : Disk) (p : FilePolicy) (test : Bool) (q : Location) (r : Result PathError Location)
    → Takes test q r
    → Takes (test && input_fits d p q) q (input_after d p r)
input_after-Takes d p test q (err e) h = ground (arith, h)
input_after-Takes d p test q (ok r) h =
    subst (λ x. Takes (test && input_fits d p q) q (input_after d p (ok x))) (sym h.1)
      (checked_input-Takes d p q test (input_fits d p q)
        (files_check d p (input_base d q) (input_files d q) 0) h.0 (input_fits-ok d p q))

-- `check_input` accepts just the inputs whose path has no symbolic link and is under the roots of the
-- execution's policy, whose files stay inside it, are directories or regular files within the limits of
-- one file, and have no more bytes together than `max_expanded_bytes`, counted after decompression. It
-- returns the resolved path.
pub check_input-Takes :
    (d : Disk) (ctx : Option FilePolicy) (defaults : FilePolicy) (policy : Option FilePolicy)
    (path : Location)
    → let q = d.resolve path in
      Takes
        ((is_contained d none path && in_roots d (roots_of ctx false) q)
          && input_fits d (policy_of policy ctx defaults) q)
        q
        (check_input d ctx defaults policy path)
unfolding check_input check_path
check_input-Takes d ctx defaults policy path =
    input_after-Takes d (policy_of policy ctx defaults) _ (d.resolve path)
      (rooted d (roots_of ctx false) (contained_path d none path))
      (rooted-Takes d (roots_of ctx false) (is_contained d none path) (d.resolve path)
        (contained_path d none path) (contained_path-Takes d none path))
