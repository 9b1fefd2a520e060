-- ===== src/Governance/Access/Examples.antt =====
-- Tests of the access policy.
use buffdata.Prelude.{◌∷◌, ◌≡◌, [], refl}
use buffdata.Governance.Access.{
  Policy, Answers, check_permission, has_permission, check_permission-Answers, role_for,
  undefined_role,
}
use buffdata.Prelude.Exec.{err}

abbrev policy : Policy
policy = record {
  policy_version = "1";
  name = "team";
  roles = ("reader", record { permissions = "runs:read" ∷ [] }) ∷ [];
  actors = ("ann", "reader") ∷ ("bob", "writer") ∷ [];
}

bob_has_no_role : check_permission policy "bob" "runs:read" ≡ err (undefined_role "writer")
unfolding check_permission has_permission role_for
bob_has_no_role = refl

check_permission-Answers_example :
    Answers policy "ann" "runs:write" (check_permission policy "ann" "runs:write")
check_permission-Answers_example = check_permission-Answers policy "ann" "runs:write"
