-- ===== src/Runs/Runner/Examples.antt =====
-- Tests of a local run of a queued run.
use buffdata.Prelude.{
  [], none, some, true, false, zero, suc, refl, ℕ, String, Option, List, ◌∷◌, ◌+◌, ◌*◌, ◌≡◌, ◌==◌,
  ◌≤◌, if◌then◌else◌, nat_eq, string_eq, arith,
}
use buffdata.Prelude.Exec.{Result, ok}
use buffdata.Prelude.Json.{Json, field, end}
use buffdata.Runs.Models.{RunStatus, queued, running, succeeded, cancelled}
use buffdata.Runs.Tables.{Db}
use buffdata.Runs.Store.{RunView, run_view, get, project_body, dataset}
use buffdata.Runs.Lifecycle.{claim, next_queued, start_run, finish, end_run, heartbeat, cancel}
use buffdata.Runs.Lifecycle.Invariant.{IsSound}
use buffdata.Runs.Service.{ServiceError}
use buffdata.Runs.Service.Lineage.Examples.{run_with, cycle}
use buffdata.Runs.Service.Artifacts.Examples.{disk, python}
use buffdata.Runs.Service.Artifacts.{run_directory, hash_path, verify_manifest}
use buffdata.Runs.Service.Prepare.{prepare}
use buffdata.Runs.Service.Resume.{Host, policy, dataset_path}
use buffdata.Runs.Service.Webhooks.{dispatch_webhooks, dispatch_each}
use buffdata.Runs.Runner.{Machine, run_local, attempt, supervise, watch}
use buffdata.Runs.Runner.Ends.{run_local-Released, IsReleased}
use buffdata.Runs.Sessions.{list_webhooks}
use buffdata.Runs.Runner.Watch.{Gives}
use buffdata.Security.Paths.{contained_path}
use buffdata.Runs.Service.Resume.Examples.{host}
use buffdata.Runs.Service.Webhooks.Examples.{wire}
use buffdata.Runs.Lifecycle.Kept.{IsSound-IsKept}

-- The subprocess is done at the third look. Others log in meanwhile.
abbrev pub machine : Machine
machine = record {
  poll = λ i. if i == 2 then some 0 else none;
  time = λ i. elim i [ zero ↦ 0 | suc n ↦ n * 500000 ];
  clock = λ i. record { now = 5; event_time = 5; iso = ""; token = "t" };
  others = λ i s. record s {
    sessions = record { id = "x"; expires = i; body = Json.null } ∷ s.sessions;
  };
  finished = λ h. h;
  read_json = λ p. ok (Json.str "m");
  truth = λ j. true;
  execution_seconds = λ p. 10;
  keys = none;
  wire = wire;
  payload = λ p r e. "";
}

abbrev length_of : List String → ℕ
length_of [] = 0
length_of (x ∷ xs) = length_of xs + 1

-- Snapshots do not exist before they are taken.
abbrev pub fresh_host : Host
fresh_host = record host {
  python = python "h2";
  disk = record disk { exists = λ p. if length_of p == 6 then false else true };
}

abbrev pub one_queued : Db
one_queued = record cycle {
  projects = record { id = "p"; body = Json.null; active_run = none } ∷ [];
  datasets =
      record {
        id = "d";
        project = "p";
        body = Json.obj (field "path" (Json.str "d.jsonl") (field "sha256" (Json.str "h1") end));
        deleted = false;
      }
      ∷ [];
  runs =
      record (run_with "0" none) {
        status = queued;
        body = record (run_with "0" none).body {
          inputs = Json.obj (field "source" (Json.str "h1") end);
        };
      }
      ∷ [];
}

abbrev after : Result ServiceError (Option RunView) × Db
after = run_local machine fresh_host "p" "0" one_queued

zero-ne : ◌≡◌ {A = String} "0" "" → ⊥
zero-ne h = cc

queued-ne-running : ◌≡◌ {A = RunStatus} queued running → ⊥
queued-ne-running h = cc

pub one_queued-IsSound : IsSound one_queued
one_queued-IsSound = record {
  keys = (tt, tt);
  rows = (
    record {
      named = zero-ne;
      active = λ e. absurd (queued-ne-running e);
      leased = λ e. absurd (queued-ne-running e);
      unleased = λ e. refl;
      uncancelled = λ e. refl;
    },
    tt,
  );
}

abbrev ended_view : RunView
ended_view = run_view (record (run_with "0" none) {
  status = succeeded;
  heartbeat = some 5;
  body = record (run_with "0" none).body {
    inputs = Json.obj (field "source" (Json.str "h1") end);
    manifest = some (Json.str "m");
    completed_at = some "";
  };
})

half_seconds : (i : ℕ) → i * 500000 + 500000 ≤ suc i * 500000
half_seconds i = omega arith

-- Another process asks for the cancellation of the run before its second heartbeat.
abbrev cancelling : Machine
cancelling = record machine {
  others = λ i s. if i == 7 then (cancel (machine.clock 0) "p" "0" "ann" s).1 else s;
}

abbrev ended_as : Result ServiceError (Option RunView) → Option RunStatus
ended_as (ok (some view)) = some view.status
ended_as _ = none

run_is_cancelled : ended_as (run_local cancelling fresh_host "p" "0" one_queued).0 ≡ some cancelled
unfolding run_local claim next_queued start_run attempt prepare policy project_body dataset_path
    dataset hash_path contained_path run_directory verify_manifest supervise watch finish end_run
    heartbeat get dispatch_webhooks dispatch_each list_webhooks cancel
run_is_cancelled = refl

logins_keep : (i : ℕ) (s : Db) → IsSound s → IsSound (machine.others i s)
logins_keep i s sound = IsSound-IsKept.elsewhere s (machine.others i s) refl refl sound

from_zero : 0 ≤ 0 * 500000
from_zero = omega arith

run_local-Released_example :
    Gives
      (λ view. IsReleased "p" "0" (some "t"))
      (IsReleased "p" "0" (some "t"))
      (run_local machine fresh_host "p" "0" one_queued)
run_local-Released_example =
    run_local-Released machine from_zero half_seconds logins_keep fresh_host "p" "0" (λ i s h. h)
      one_queued one_queued-IsSound refl
