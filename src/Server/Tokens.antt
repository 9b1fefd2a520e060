-- ===== src/Server/Tokens.antt =====
-- The projects that a worker's token is configured for.
use buffdata.Server.Workers.{ending}
use buffdata.Prelude.{
  [], none, some, true, refl, String, Bool, Option, List, ◌∷◌, ◌==◌, ◌&&◌, ◌≡◌, any, contains,
  string_eq, Bool-cases, Option-cases, inl, inr, arith, eq_iff, map, select, sym,
}
use buffdata.Prelude.Exec.{ok}
use buffdata.Prelude.Json.{Json}
use buffdata.Runs.Tables.{Db}
use buffdata.Server.{Server}
use buffdata.Server.Workers.{Files, worker, some_project, is_authorized, project_given, notify}
use mathlib.Core.Path.{subst}
use buffdata.Server.Replies.{refused-ok, answer-inj}
use buffdata.Runs.Service.Webhooks.{dispatch_webhooks}
use buffdata.Runs.Service.Webhooks.Quiet.{dispatch_webhooks-Same}

-- The token's hash is the one of 64 characters that is configured for the project.
abbrev pub Authorized : Server → String → String → Type 0
Authorized v token project =
    any (λ c. (c.0 == project) && is_authorized v.text_length (v.token_hash token) c)
      v.worker_hashes
    ≡ true

chosen :
    (p : String × String → Bool) (project : String) (cs : List (String × String))
    → contains project (map (λ (c : String × String). c.0) (select p cs)) ≡ true
    → any (λ c. (c.0 == project) && p c) cs ≡ true
chosen p project [] h = h
chosen p project (c ∷ cs) h = elim (Bool-cases (p c)) [
  | inl e ↦ elim (Bool-cases (c.0 == project)) [
    | inl f ↦ rw (e, f) refl
    | inr f ↦ rw (e, f) (chosen p project cs (rw (e, f) at h))
  ]
  | inr e ↦ let more = chosen p project cs (rw e at h) in ground (arith, more)
]

listed : (ps qs : List String) → some_project ps ≡ ok qs → qs ≡ ps
listed [] qs h = absurd (refused-ok h)
listed (p ∷ ps) qs h = sym (answer-inj h)

pub given-contains :
    (authorized : List String) (j : Option Json) (project : String)
    → project_given authorized j ≡ ok project
    → contains project authorized ≡ true
given-contains [] none project h = absurd (refused-ok h)
given-contains (p ∷ []) none project h = ground (arith, eq_iff p project, answer-inj h)
given-contains (p ∷ q ∷ ps) none project h = absurd (refused-ok h)
given-contains authorized (some (Json.str x)) project h =
    elim (Bool-cases (contains x authorized)) [
      | inl e ↦ subst (λ y. contains y authorized ≡ true) (answer-inj (rw e at h)) e
      | inr e ↦ absurd (refused-ok (rw e at h))
    ]
given-contains authorized (some j) project h = absurd (refused-ok h)

pub worker-Authorized :
    (v : Server) (token : String) (authorized : List String) (project : String)
    → worker v token ≡ ok authorized
    → contains project authorized ≡ true
    → Authorized v token project
unfolding worker
worker-Authorized v token authorized project h k =
    chosen (is_authorized v.text_length (v.token_hash token)) project v.worker_hashes
      (subst (λ ps. contains project ps ≡ true) (listed _ authorized h) k)

-- Messages change no run.
pub notify-runs :
    (f : Files) (project run_id ending : String) (s : Db)
    → (notify f project run_id ending s).runs ≡ s.runs
notify-runs f project run_id ending s =
    elim (Option-cases
      (dispatch_webhooks f.wire project run_id ending (f.payload project run_id ending) s)) [
        | inl e ↦ rw e refl
        | inr ((t, posts), e) ↦
            rw e
              (dispatch_webhooks-Same f.wire project run_id ending (f.payload project run_id ending)
                s t posts e).0
      ]
