-- ===== src/Governance/Access.antt =====
-- buffdata/governance/access.py: who may do what. A policy maps actors to roles and roles to the
-- permissions that they grant. `dict[str, …]` is an association list, looked up by its key.
pub mod Examples
use buffdata.Prelude.{
  ℕ, String, Option-cases, Option, Bool, List, ◌≡◌, if◌then◌else◌, some, none, inl, false, inr, ◌∷◌,
  contains, true, string_eq, Bool-cases, ◌==◌, refl, [],
}
use buffdata.Prelude.Exec.{Result, ok, err}

pub record Role : Type 0 where
  pub permissions : List String

pub record Policy : Type 0 where
  pub policy_version : String
  pub name : String
  pub roles : List (String × Role)
  pub actors : List (String × String)

-- What `PermissionDeniedError` is raised for; its text names the same.
pub data Denial : Type 0 where
  unknown_actor : Denial
  undefined_role missing_permission : String → Denial

-- `d.get(k)`
abbrev pub get_entry : {A : Type 0} → String → List (String × A) → Option A
get_entry k [] = none
get_entry k (e ∷ es) = let rest = get_entry k es in if e.0 == k then some e.1 else rest

abbrev pub role_named : Policy → Option String → Option Role
role_named p none = none
role_named p (some r) = get_entry r p.roles

pub role_for : Policy → String → Option Role
role_for p actor = role_named p (get_entry actor p.actors)

abbrev pub role_grants : String → Option Role → Bool
role_grants permission none = false
role_grants permission (some r) = contains permission r.permissions

pub has_permission : Policy → String → String → Bool
has_permission p actor permission = role_grants permission (role_for p actor)

abbrev pub undefined_or_missing : String → Option Role → Denial
undefined_or_missing r none = undefined_role r
undefined_or_missing r (some _) = missing_permission r

abbrev pub denial : Policy → Option String → Denial
denial p none = unknown_actor
denial p (some r) = undefined_or_missing r (get_entry r p.roles)

pub check_permission : Policy → String → String → Result Denial Unit
check_permission p actor permission =
    if has_permission p actor permission then ok tt else err (denial p (get_entry actor p.actors))

-- A policy grants a permission to an actor: by a role that it assigns and defines.
pub data Grants (p : Policy) (actor permission : String) : Type 0 where
  by_role :
      (name : String) (r : Role)
      → get_entry actor p.actors ≡ some name
      → get_entry name p.roles ≡ some r
      → contains permission r.permissions ≡ true
      → Grants p actor permission

-- What each denial says of the policy.
abbrev pub Tells : Policy → String → String → Denial → Type 0
Tells p actor permission unknown_actor = get_entry actor p.actors ≡ none
Tells p actor permission (undefined_role r) =
    (get_entry actor p.actors ≡ some r) × (get_entry r p.roles ≡ none)
Tells p actor permission (missing_permission r) =
    (get_entry actor p.actors ≡ some r)
    × ((role : Role) × (get_entry r p.roles ≡ some role)
        × (contains permission role.permissions ≡ false))

-- What a check promises: it passes with a grant, and a denial is true of the policy.
abbrev pub Answers : Policy → String → String → Result Denial Unit → Type 0
Answers p actor permission (ok _) = Grants p actor permission
Answers p actor permission (err d) = Tells p actor permission d

-- A check that passes has a grant in the policy behind it, and one that is denied names the first
-- step that is missing: the actor, the role that the actor has, or the permission in that role.
pub check_permission-Answers :
    (p : Policy) (actor permission : String)
    → Answers p actor permission (check_permission p actor permission)
unfolding check_permission has_permission role_for
check_permission-Answers p actor permission = elim (Option-cases (get_entry actor p.actors)) [
  | inl e ↦ rw e e
  | inr (r, e) ↦ elim (Option-cases (get_entry r p.roles)) [
    | inl f ↦ rw (e, f) (e, f)
    | inr (role, f) ↦ elim (Bool-cases (contains permission role.permissions)) [
      | inl g ↦ rw (e, f, g) (by_role r role e f g)
      | inr g ↦ rw (e, f, g) (e, (role, f, g))
    ]
  ]
]

-- A grant is enough for the check to pass.
pub Grants-check_permission :
    (p : Policy) (actor permission : String)
    → Grants p actor permission
    → check_permission p actor permission ≡ ok tt
unfolding check_permission has_permission role_for
Grants-check_permission p actor permission (by_role r role e f g) = rw (e, f, g) refl
