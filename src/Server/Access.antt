-- ===== src/Server/Access.antt =====
-- Who a request comes from, and what it may do in a project.
use buffdata.Server.{
  Request, Role, Server, HttpError, identity_by, level, text_of, level_of, csrf_checked, role_of,
  identity, reads, Method, bearer_actor, named_actor, session_actor, store_call, refuse, writes,
  authorize, Handler, csrf_answer,
}
use buffdata.Prelude.{
  none, some, refl, String, ◌≡◌, first, ◌⊎◌, ◌==◌, ◌<◌, ◌≤◌, string_eq, Option, inr, if◌then◌else◌,
  inl, ltb, if_cases, leb, arith, option_eq, Option-cases, sym, ◌∙◌, ap, eq_iff,
}
use buffdata.Runs.Sessions.{session, live_session}
use buffdata.Runs.Tables.{Db, Outside, Session, Project}
use buffdata.Prelude.Exec.{Result, ok, err, pure, continue, ◌>>=◌}
use buffdata.Runs.Store.{project_body}
use mathlib.Core.Path.{subst}

-- The request has the actor's bearer token, or the cookie of a session of the actor that has not expired;
-- with a cookie, a method that writes also has the CSRF token of the session.
abbrev pub IsFrom : Server → Outside → Request → Db → String → Type 0
IsFrom v o q s actor =
    ((token : String) × (q.bearer ≡ some token) × (v.verify_bearer_token token ≡ some actor))
    ⊎ ((row : Session) × (q.bearer ≡ none)
        × (first (λ r. r.id == v.token_hash q.cookie) s.sessions ≡ some row)
        × (o.now < row.expires)
        × (text_of "actor" row.body ≡ some actor)
        × ((q.method ≡ reads) ⊎ (text_of "csrf" row.body ≡ some q.csrf_token)))

-- The actor of the request is a member of the project with this role or a higher one.
abbrev pub Permits : Server → Outside → Request → Db → String → Role → Type 0
Permits v o q s project minimum =
    (actor : String) × (row : Project) × IsFrom v o q s actor
    × (first (λ r. r.id == project) s.projects ≡ some row)
    × (level minimum ≤ level_of (role_of row.body actor))

-- An answer, or a change of the tables, only where `P` holds.
abbrev pub Only : {A : Type 0} → Type 0 → Db → Result HttpError A × Db → Type 0
Only P s (ok a, s') = P
Only P s (err e, s') = (s' ≡ s) ⊎ P

abbrev pub Proves : (Db → String → Type 0) → Db → Result HttpError String × Db → Type 0
Proves P s (ok actor, s') = P s actor × (s' ≡ s)
Proves P s (err e, s') = s' ≡ s

module _ (v : Server) (o : Outside) (q : Request) (s : Db) where
  answer-Proves :
      (row : Session) (actor : String)
      → q.bearer ≡ none
      → first (λ r. r.id == v.token_hash q.cookie) s.sessions ≡ some row
      → o.now < row.expires
      → text_of "actor" row.body ≡ some actor
      → (csrf : Option String) → text_of "csrf" row.body ≡ csrf
      → Proves (IsFrom v o q) s (csrf_answer q actor csrf, s)
  answer-Proves row actor cookie here live named none e = refl
  answer-Proves row actor cookie here live named (some csrf) e =
      if_cases (λ r. Proves (IsFrom v o q) s (r, s)) (csrf == q.csrf_token) _ _
        (λ k. (
          inr (row, cookie, here, live, named, inr (e ∙ ap some ((eq_iff csrf q.csrf_token).0 k))),
          refl,
        ))
        (λ k. refl)

  csrf-Proves :
      (row : Session) (actor : String)
      → q.bearer ≡ none
      → first (λ r. r.id == v.token_hash q.cookie) s.sessions ≡ some row
      → o.now < row.expires
      → text_of "actor" row.body ≡ some actor
      → (m : Method) → q.method ≡ m
      → Proves (IsFrom v o q) s (csrf_checked q row.body actor m, s)
  csrf-Proves row actor cookie here live named reads e =
      (inr (row, cookie, here, live, named, inl e), refl)
  csrf-Proves row actor cookie here live named writes e =
      answer-Proves row actor cookie here live named (text_of "csrf" row.body) refl

  named-Proves :
      (row : Session)
      → q.bearer ≡ none
      → first (λ r. r.id == v.token_hash q.cookie) s.sessions ≡ some row
      → o.now < row.expires
      → (actor : Option String) → text_of "actor" row.body ≡ actor
      → Proves (IsFrom v o q) s (named_actor q row.body actor, s)
  named-Proves row cookie here live none e = refl
  named-Proves row cookie here live (some actor) e =
      csrf-Proves row actor cookie here live e q.method refl

  row-Proves :
      q.bearer ≡ none
      → (found : Option Session) → first (λ r. r.id == v.token_hash q.cookie) s.sessions ≡ found
      → Proves (IsFrom v o q) s (session_actor q (live_session o.now found), s)
  row-Proves cookie none here = refl
  row-Proves cookie (some row) here =
      if_cases (λ b. Proves (IsFrom v o q) s (session_actor q b, s)) (leb row.expires o.now) _ _
        (λ k. refl)
        (λ k. named-Proves row cookie here (ground (arith, k)) (text_of "actor" row.body) refl)

  bearer-Proves :
      (token : String)
      → q.bearer ≡ some token
      → (actor : Option String) → v.verify_bearer_token token ≡ actor
      → Proves (IsFrom v o q) s (bearer_actor actor, s)
  bearer-Proves token e none k = refl
  bearer-Proves token e (some actor) k = (inl (token, e, k), refl)

  identity_by-Proves :
      (b : Option String) → q.bearer ≡ b → Proves (IsFrom v o q) s (identity_by v o q b s)
  unfolding session
  identity_by-Proves none e =
      row-Proves e (first (λ r. r.id == v.token_hash q.cookie) s.sessions) refl
  identity_by-Proves (some token) e = bearer-Proves token e (v.verify_bearer_token token) refl

  pub identity-Proves : Proves (IsFrom v o q) s (identity v o q s)
  unfolding identity
  identity-Proves = identity_by-Proves q.bearer refl

  module _ (project : String) (minimum : Role) where
    -- The part of `authorize` after the identity.
    abbrev role_check : String → Handler String
    role_check actor = do
      row ← store_call (project_body project)
      if ltb (level_of (role_of row.1 actor)) (level minimum) then refuse 403 else pure actor

    abbrev Authorized : Db → String → Type 0
    Authorized t actor = Permits v o q t project minimum × IsFrom v o q t actor

    role-Proves : (actor : String) → IsFrom v o q s actor → Proves Authorized s (role_check actor s)
    unfolding project_body
    role-Proves actor from = elim (Option-cases (first (λ r. r.id == project) s.projects)) [
      | inl e ↦ rw (project_body, e) refl
      | inr (row, e) ↦
          rw (project_body, e)
            (if_cases (λ m. Proves Authorized s (m s))
              (ltb (level_of (role_of row.body actor)) (level minimum)) (refuse 403) (pure actor)
              (λ k. refl) (λ k. (((actor, row, from, e, ground (arith, k)), from), refl)))
    ]

    after-Proves :
        (r : Result HttpError String × Db)
        → Proves (IsFrom v o q) s r
        → Proves Authorized s (continue r role_check)
    after-Proves (err e, t) h = h
    after-Proves (ok actor, t) (from, same) =
        subst (λ u. Proves Authorized s (role_check actor u)) (sym same) (role-Proves actor from)

    pub authorize-Proves : Proves Authorized s (authorize v o q project minimum s)
    unfolding authorize
    authorize-Proves = after-Proves (identity v o q s) identity-Proves
