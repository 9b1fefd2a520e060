-- ===== src/Server/Permission.antt =====
-- Which requests are answered or change the tables.
use buffdata.Server.{
  Server, Request, Role, HttpError, Handler, viewer, runner, administrator, identity, authorize,
  refuse,
}
use buffdata.Server.Routes.{
  Route, Around, Answer, list_projects, logout, update_project, list_datasets, delete_dataset,
  submit, list_runs, get_run, get_events, lineage, create_webhook, list_webhooks, delete_webhook,
  verify, artifact, cancel, resume, handle, respond, respond_to, guarded,
}
use buffdata.Server.Access.{Only, Permits, IsFrom, authorize-Proves, identity-Proves, Proves}
use buffdata.Prelude.{
  none, some, false, refl, String, Option, ◌≡◌, inl, not, ◌⊎◌, ◌==◌, if_cases, ◌&&◌, Bool-cases,
  inr, eq_iff, arith, string_eq,
}
use buffdata.Runs.Tables.{Db, Outside}
use buffdata.Prelude.Exec.{Result, ok, err, continue}

-- The project of a route and the role that it takes; the list of projects and the logout take an identity
-- alone.
abbrev pub needs : Route → Option (String × Role)
needs list_projects = none
needs logout = none
needs (update_project project members policy) = some (project, administrator)
needs (list_datasets project) = some (project, viewer)
needs (delete_dataset project id confirm) = some (project, administrator)
needs (submit spec parent) = some (spec.project_id, runner)
needs (list_runs project) = some (project, viewer)
needs (get_run project run_id) = some (project, viewer)
needs (get_events project run_id) = some (project, viewer)
needs (lineage project run_id) = some (project, viewer)
needs (create_webhook project url parts events) = some (project, administrator)
needs (list_webhooks project) = some (project, viewer)
needs (delete_webhook project id) = some (project, administrator)
needs (verify project run_id) = some (project, viewer)
needs (artifact project run_id name) = some (project, viewer)
needs (cancel project run_id) = some (project, runner)
needs (resume project run_id) = some (project, runner)

abbrev pub May : Server → Outside → Request → Db → Option (String × Role) → Type 0
May v o q s none = (actor : String) × IsFrom v o q s actor
May v o q s (some (project, minimum)) = Permits v o q s project minimum

abbrev pub IsSameOrigin : Server → Request → Type 0
IsSameOrigin v q =
    (q.origin ≡ none)
    ⊎ ((origin : String) × (q.origin ≡ some origin)
        × ((origin ≡ "") ⊎ (v.strip_slashes origin ≡ v.strip_slashes v.public_url)))

given-Only : {A : Type 0} (P : Type 0) (s : Db) (r : Result HttpError A × Db) → P → Only P s r
given-Only P s (ok a, t) p = p
given-Only P s (err e, t) p = inr p

module _ (v : Server) (a : Around) (q : Request) (s : Db) where
  after-Only :
      {A : Type 0} (P : Type 0) (Q : Db → String → Type 0) (body : String → Handler A)
      (r : Result HttpError String × Db)
      → Proves Q s r
      → ((actor : String) → Q s actor → P)
      → Only P s (continue r body)
  after-Only P Q body (err e, t) h f = inl h
  after-Only P Q body (ok actor, t) h f = given-Only P s (body actor t) (f actor h.0)

  guarded-Only :
      (project : String) (minimum : Role) (body : String → Handler Answer)
      → Only (Permits v (a.clock 0) q s project minimum) s (guarded v a q project minimum body s)
  guarded-Only project minimum body =
      after-Only (Permits v (a.clock 0) q s project minimum)
        (λ t actor. Permits v (a.clock 0) q t project minimum × IsFrom v (a.clock 0) q t actor) body
        (authorize v (a.clock 0) q project minimum s)
        (authorize-Proves v (a.clock 0) q s project minimum) (λ actor h. h.0)

  handle-Only :
      (route : Route) → Only (May v (a.clock 0) q s (needs route)) s (handle v a q route s)
  unfolding handle
  handle-Only list_projects =
      after-Only ((actor : String) × IsFrom v (a.clock 0) q s actor) (IsFrom v (a.clock 0) q) _
        (identity v (a.clock 0) q s) (identity-Proves v (a.clock 0) q s) (λ actor h. (actor, h))
  handle-Only logout =
      after-Only ((actor : String) × IsFrom v (a.clock 0) q s actor) (IsFrom v (a.clock 0) q) _
        (identity v (a.clock 0) q s) (identity-Proves v (a.clock 0) q s) (λ actor h. (actor, h))
  handle-Only (update_project project members policy) = guarded-Only project administrator _
  handle-Only (list_datasets project) = guarded-Only project viewer _
  handle-Only (delete_dataset project id confirm) = guarded-Only project administrator _
  handle-Only (submit spec parent) = guarded-Only spec.project_id runner _
  handle-Only (list_runs project) = guarded-Only project viewer _
  handle-Only (get_run project run_id) = guarded-Only project viewer _
  handle-Only (get_events project run_id) = guarded-Only project viewer _
  handle-Only (lineage project run_id) = guarded-Only project viewer _
  handle-Only (create_webhook project url parts events) = guarded-Only project administrator _
  handle-Only (list_webhooks project) = guarded-Only project viewer _
  handle-Only (delete_webhook project id) = guarded-Only project administrator _
  handle-Only (verify project run_id) = guarded-Only project viewer _
  handle-Only (artifact project run_id name) = guarded-Only project viewer _
  handle-Only (cancel project run_id) = guarded-Only project runner _
  handle-Only (resume project run_id) = guarded-Only project runner _

  and-Only :
      {A : Type 0} (P Q : Type 0) (r : Result HttpError A × Db) → Q → Only P s r → Only (Q × P) s r
  and-Only P Q (ok x, t) k h = (k, h)
  and-Only P Q (err e, t) k (inl h) = inl h
  and-Only P Q (err e, t) k (inr h) = inr (k, h)

  same_origin :
      (origin : String)
      → not (origin == "") && not (v.strip_slashes origin == v.strip_slashes v.public_url) ≡ false
      → (origin ≡ "") ⊎ (v.strip_slashes origin ≡ v.strip_slashes v.public_url)
  same_origin origin k = elim (Bool-cases (origin == "")) [
    | inl e ↦ inl ((eq_iff origin "").0 e)
    | inr e ↦
        inr (
          (eq_iff (v.strip_slashes origin) (v.strip_slashes v.public_url)).0 (ground (arith, k, e)))
  ]

  origin-Only :
      (origin : Option String)
      → q.origin ≡ origin
      → (route : Route)
      → Only
          (IsSameOrigin v q × May v (a.clock 0) q s (needs route))
          s
          (respond_to v a q route origin s)
  origin-Only none e route = and-Only _ _ _ (inl e) (handle-Only route)
  origin-Only (some origin) e route =
      if_cases (λ m. Only (IsSameOrigin v q × May v (a.clock 0) q s (needs route)) s (m s))
        (not (origin == "") && not (v.strip_slashes origin == v.strip_slashes v.public_url))
        (refuse 403) (handle v a q route) (λ k. inl refl)
        (λ k. and-Only _ _ _ (inr (origin, e, same_origin origin k)) (handle-Only route))

  -- A request is answered, or changes the tables, only if it names no other origin and comes from an actor
  -- who has the bearer token, or the cookie of a live session, and the session's CSRF token where the
  -- method writes. Where the route is one of a project, the actor is also a member of that project with the
  -- role that the route takes or a higher one.
  pub respond-Only :
      (route : Route)
      → Only (IsSameOrigin v q × May v (a.clock 0) q s (needs route)) s (respond v a q route s)
  unfolding respond
  respond-Only route = origin-Only q.origin refl route
