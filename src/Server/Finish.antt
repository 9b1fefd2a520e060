-- ===== src/Server/Finish.antt =====
-- What a worker's report of success has passed.
use buffdata.Prelude.{none, some, false, String, Bool, Option, ◌≡◌, string_eq, first}
use buffdata.Prelude.Exec.{ok}
use buffdata.Prelude.Json.{Json}
use buffdata.Runs.Models.{succeeded}
use buffdata.Runs.Tables.{Db, Run}
use buffdata.Runs.Store.{is_run}
use buffdata.Runs.Lifecycle.{heartbeat, is_leased}
use buffdata.Server.{Server}
use buffdata.Server.Workers.{Files}
use buffdata.Runs.Lifecycle.Replies.{finished_row}
use buffdata.Server.Tokens.{Authorized}
use buffdata.Server.Candidates.{Vouched}

-- What a report of success has passed. `s1` is the tables with the heartbeat that comes first.
abbrev pub Reported : Server → Files → String → String → Db → Db → Type 0
Reported v f token run_id s t =
    (project : String) × (lease : Option String) × (stop : Bool) × (s1 : Db) × (r : Run)
    × (j : Json) × Authorized v token project
    × (heartbeat (f.clock 0) project run_id lease s ≡ (ok stop, s1))
    × (first (is_leased project run_id lease) s1.runs ≡ some r)
    × (r.cancel_requested ≡ false)
    × Vouched v f project run_id s1 j
    × (first (is_run project run_id) t.runs
        ≡ some (finished_row (f.clock 1) succeeded (some j) none r))
