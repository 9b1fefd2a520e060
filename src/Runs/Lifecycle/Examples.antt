-- ===== src/Runs/Lifecycle/Examples.antt =====
-- Tests of the run life cycle on concrete tables, and the theorems applied to them.
use buffdata.Prelude.{
  ℕ, String, ◌≢◌, length, List, none, select, arith, ◌++◌, eq_iff, ◌∷◌, false, some, ◌≤◌, [], map,
  ◌≡◌, first, ◌==◌, refl, string_eq,
}
use Prim.Native.String.{◌++◌ as append}
use buffdata.Runs.Lifecycle.Reach.{Call, perform_all, perform, no_tables, perform_all-IsSound}
use buffdata.Runs.Lifecycle.Invariant.{IsSound}
use buffdata.Runs.Models.{RunSpec, running, succeeded, queued, run_conflict}
use buffdata.Runs.Lifecycle.{
  Digests, queued_row, submit, claim, finish, next_queued, end_run, start_run, heartbeat,
}
use buffdata.Runs.Tables.{RunBody, Outside, Run}
use buffdata.Runs.Lifecycle.Replies.{finished_row, heartbeat-finish, submit_again}
use buffdata.Prelude.Json.{Json}
use buffdata.Runs.Lifecycle.Safety.{is_running_in, one_running_run, ended_runs_stay}
use buffdata.Runs.Store.{ensure_project, add_dataset, get, run_view}
use buffdata.Prelude.Exec.{ok, err}

abbrev at : ℕ → String → Outside
at n token = record { now = n; event_time = n; iso = "2026-01-01T00:00:00Z"; token = token }

abbrev digests : Digests
digests = record { of_spec = λ s. s.dataset_id; of_key = λ p a k. append p (append a k) }

abbrev spec : RunSpec
spec = record {
  project_id = "p";
  dataset_id = "d";
  configuration = Json.null;
  output_format = "jsonl";
  validation_dataset_id = none;
  require_positive_gain = false;
  accuracy_seeds = 42 ∷ [];
  accuracy_epochs = 1;
  accuracy_min_gain = "0.0";
  accuracy_max_train_rows = 100;
}

abbrev body : String → RunBody
body id = record {
  id = id;
  spec = spec;
  created_at = "2026-01-01T00:00:00Z";
  implementation = Json.null;
  inputs = Json.null;
  parent_run_id = none;
  manifest = none;
  completed_at = none;
  error = none;
}

abbrev setup : List Call
setup =
    Call.ensure_project (at 1 "") "p" Json.null ∷ Call.add_dataset (at 2 "") "p" "d" Json.null ∷ []

abbrev two_runs : List Call
two_runs =
    setup
    ++ Call.submit digests (at 3 "") spec "ann" "k1" (body "r1")
      ∷ Call.submit digests (at 4 "") spec "ann" "k2" (body "r2")
      ∷ Call.claim (at 5 "lease1") "p" none
      ∷ Call.claim (at 6 "lease2") "p" none
      ∷ []

abbrev finished : List Call
finished =
    two_runs
    ++ Call.finish (at 7 "") "p" "r1" (some "lease1") succeeded (some Json.null) none none ∷ []

abbrev later : List Call
later = Call.claim (at 8 "lease3") "p" none ∷ Call.cancel (at 9 "") "p" "r1" "bob" ∷ []

r1-named : ◌≢◌ {A = String} "r1" ""
r1-named = ground (arith, eq_iff "r1" "")

r2-named : ◌≢◌ {A = String} "r2" ""
r2-named = ground (arith, eq_iff "r2" "")

abbrev runs_of : List Call → List Run
runs_of cs = (perform_all cs no_tables).runs

second_waits : map (λ r. r.status) (runs_of two_runs) ≡ running ∷ queued ∷ []
unfolding perform_all perform ensure_project add_dataset submit claim next_queued start_run get
second_waits = refl

one_running_run_example :
    length (select (is_running_in "p") (perform_all two_runs no_tables).runs) ≤ 1
one_running_run_example =
    one_running_run two_runs "p" (tt, (tt, (r1-named, (r2-named, (tt, (tt, tt))))))

perform_all-IsSound_example : IsSound (perform_all finished no_tables)
perform_all-IsSound_example =
    perform_all-IsSound finished (tt, (tt, (r1-named, (r2-named, (tt, (tt, (tt, tt)))))))

abbrev ended_row : Run
ended_row =
    finished_row (at 7 "") succeeded (some Json.null) none
      (record (queued_row digests (at 3 "") spec "ann" "k1" (body "r1")) {
        status = running;
        lease = some "lease1";
        heartbeat = some 5;
      })

ended_runs_stay_example :
    first (λ q. q.id == "r1") (perform_all later (perform_all finished no_tables)).runs
    ≡ some ended_row
unfolding perform_all perform ensure_project add_dataset submit claim finish end_run next_queued
    start_run get
ended_runs_stay_example =
    ended_runs_stay finished later "r1" ended_row
      (tt, (tt, (r1-named, (r2-named, (tt, (tt, (tt, tt))))))) (tt, (tt, tt)) refl refl

submit_again_example :
    submit digests
      (at 9 "")
      spec
      "ann"
      "k1"
      (body "r9")
      (submit digests (at 3 "") spec "ann" "k1" (body "r1") (perform_all setup no_tables)).1
    ≡ (
      ok (run_view (queued_row digests (at 3 "") spec "ann" "k1" (body "r1"))),
      (submit digests (at 3 "") spec "ann" "k1" (body "r1") (perform_all setup no_tables)).1,
    )
unfolding perform_all perform ensure_project add_dataset submit get
submit_again_example =
    submit_again digests (at 3 "") spec "ann" "k1" (body "r1") (perform_all setup no_tables) refl
      refl refl (at 9 "") spec (body "r9") refl

abbrev running_row : Run
running_row = record (queued_row digests (at 3 "") spec "ann" "k1" (body "r1")) {
  status = running;
  lease = some "lease1";
  heartbeat = some 5;
}

heartbeat-finish_example :
    (heartbeat
      (at 8 "")
      "p"
      "r1"
      (some "lease1")
      (finish
        (at 7 "")
        "p"
        "r1"
        (some "lease1")
        succeeded
        (some Json.null)
        none
        none
        (perform_all two_runs no_tables)).1).0
    ≡ err (run_conflict "Run lease is no longer valid")
unfolding perform_all perform ensure_project add_dataset submit claim next_queued start_run get
heartbeat-finish_example =
    heartbeat-finish (at 7 "") "p" "r1" (some "lease1") succeeded (some Json.null) none none
      (perform_all two_runs no_tables) running_row refl refl refl refl refl (at 8 "")
      (some "lease1")
