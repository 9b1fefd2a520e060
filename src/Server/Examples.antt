-- ===== src/Server/Examples.antt =====
-- Tests of a server with one project, two members and a worker.
use buffdata.Prelude.{
  [], none, some, true, false, refl, ℕ, String, Bool, Option, ◌∷◌, ◌≡◌, ◌==◌, if◌then◌else◌,
  string_eq,
}
use buffdata.Prelude.Exec.{Result, ok, err}
use buffdata.Prelude.Json.{Json, field, end}
use buffdata.Runs.Models.{RunStatus}
use buffdata.Runs.Tables.{Outside, Db}
use buffdata.Runs.Store.{get, project_body}
use buffdata.Runs.Lifecycle.{claim, cancel, request_cancel}
use buffdata.Runs.Runner.Examples.{fresh_host, one_queued, machine}
use buffdata.Security.Network.{Net}
use buffdata.Server.{Server, Request, HttpError, http_error, writes, identity, authorize}
use buffdata.Server.Routes.{Around, Answer, respond, handle, cancel as cancel_route}
use buffdata.Server.Access.{Only}
use buffdata.Server.Permission.{respond-Only, IsSameOrigin, May, needs}
use buffdata.Server.Workers.{Files, Work, claim_route, finish_route}

abbrev server : Server
server = record {
  host = fresh_host;
  token_hash = λ t. t;
  verify_bearer_token = λ t. if t == "A" then some "ann" else if t == "B" then some "bob" else none;
  worker_hashes = ("p", "w") ∷ ("q", "x") ∷ [];
  text_length = λ s. 64;
  public_url = "https://b";
  strip_slashes = λ s. s;
}

-- Ann is an administrator, and Bob may look.
abbrev tables : Db
tables = record one_queued {
  projects =
      record {
        id = "p";
        body = Json.obj (
            field "members"
              (Json.obj
                (field "ann" (Json.str "administrator") (field "bob" (Json.str "viewer") end)))
              end);
        active_run = none;
      }
      ∷ [];
}

abbrev at : ℕ → Outside
at n = record { now = 5; event_time = 5; iso = ""; token = "t" }

abbrev no_net : Net
no_net = record {
  lower = λ s. s;
  strip_dots = λ s. s;
  ip_address = λ s. none;
  getaddrinfo = λ s n. none;
  is_global = λ s. false;
}

abbrev around : Around
around = record { clock = at; net = no_net; random = λ n. "r" }

abbrev asking : String → Option String → Request
asking token origin = record {
  method = writes;
  origin = origin;
  bearer = some token;
  cookie = "";
  csrf_token = "";
  idempotency_key = "";
}

bob_refused :
    respond server around (asking "B" none) (cancel_route "p" "0") tables
    ≡ (err (http_error 403), tables)
unfolding respond handle authorize identity project_body
bob_refused = refl

other_origin :
    respond server around (asking "A" (some "https://evil")) (cancel_route "p" "0") tables
    ≡ (err (http_error 403), tables)
unfolding respond
other_origin = refl

abbrev is_cancelled : Result HttpError Answer × Db → Bool
is_cancelled (ok (Answer.run_answer r), s) = r.cancel_requested
is_cancelled _ = false

ann_cancels :
    is_cancelled
      (respond server around (asking "A" (some "https://b")) (cancel_route "p" "0") tables)
    ≡ true
unfolding respond handle authorize identity project_body cancel request_cancel get
ann_cancels = refl

respond-Only_example :
    Only
      (IsSameOrigin server (asking "A" none)
        × May server (at 0) (asking "A" none) tables (needs (cancel_route "p" "0")))
      tables
      (respond server around (asking "A" none) (cancel_route "p" "0") tables)
respond-Only_example = respond-Only server around (asking "A" none) tables (cancel_route "p" "0")

abbrev files : Files
files = record {
  clock = at;
  shuffle = λ ps. ps;
  read_json = λ p. ok (Json.str "m");
  wire = machine.wire;
  payload = λ p r e. "";
  keys = none;
  execution_seconds = λ p. 10;
}

abbrev given : Work
given = record { run_id = "0"; lease = some "t"; project_id = "p"; seconds = 10; data_key = none }

abbrev claimed : Result HttpError (Option Work) × Db
claimed = claim_route server files "w" one_queued

abbrev report : Json
report = Json.obj (field "lease" (Json.str "t") (field "status" (Json.str "succeeded") end))

abbrev reported : Result HttpError RunStatus × Db
reported = finish_route server files "w" "0" report (claim (at 0) "p" none one_queued).1
