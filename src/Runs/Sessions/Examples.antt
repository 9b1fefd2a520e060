-- ===== src/Runs/Sessions/Examples.antt =====
-- Tests of sessions and data keys, and the theorems applied to concrete tables.
use Prim.Native.String.{◌++◌ as append}
use buffdata.Prelude.{
  ℕ, String, if◌then◌else◌, false, ◌≡◌, ◌==◌, true, none, some, refl, ◌∷◌, string_eq, [],
}
use buffdata.Runs.Sessions.{KeyManager, session, get_or_create_data_key, save_session}
use buffdata.Runs.Tables.{Db, Outside}
use buffdata.Runs.Lifecycle.Reach.{no_tables}
use buffdata.Prelude.Json.{Json}
use buffdata.Prelude.Exec.{ok}
use buffdata.Runs.Sessions.Promises.{data_key_stays, session_once, session-save_session}

abbrev at : ℕ → String → Outside
at n token = record { now = n; event_time = n; iso = "2026-01-01T00:00:00Z"; token = token }

abbrev hash : String → String
hash s = append "#" s

-- A key manager that knows one key.
abbrev manager : KeyManager
manager = record {
  seal = λ s. append "sealed" s;
  unseal = λ s. if s == "sealedkey" then some "key" else none;
}

abbrev one_project : Db
one_project = record no_tables {
  projects = record { id = "p"; body = Json.null; active_run = none } ∷ [];
}

session_once_example :
    (session hash
      (at 3 "")
      "tok"
      false
      (session hash
        (at 2 "")
        "tok"
        true
        (save_session hash (at 1 "") "tok" Json.null 100 no_tables).1).1).0
    ≡ ok none
session_once_example =
    session_once hash (at 2 "") (at 3 "") "tok" false
      (save_session hash (at 1 "") "tok" Json.null 100 no_tables).1

session-save_session_example :
    (session hash
      (at 50 "")
      "tok"
      false
      (save_session hash (at 1 "") "tok" Json.null 100 no_tables).1).0
    ≡ ok (some Json.null)
session-save_session_example =
    session-save_session hash (at 1 "") (at 50 "") "tok" Json.null 100 false no_tables refl

data_key_stays_example :
    let (key, d') = get_or_create_data_key manager (at 1 "key") "p" one_project in
    (key ≡ ok "key") × (get_or_create_data_key manager (at 2 "new") "p" d' ≡ (ok "key", d'))
data_key_stays_example =
    data_key_stays manager (at 1 "key") (at 2 "new") "p" one_project refl refl refl
