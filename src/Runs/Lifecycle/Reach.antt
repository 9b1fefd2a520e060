-- ===== src/Runs/Lifecycle/Reach.antt =====
-- Sequences of calls on a store: each call is a transaction, and calls of several processes reach
-- the tables one after the other.
use buffdata.Prelude.{ℕ, String, ◌≢◌, List, All, [], ◌∷◌, Option, Bool}
use buffdata.Runs.Store
use buffdata.Runs.Lifecycle
use buffdata.Runs.Sessions
use buffdata.Runs.Tables.{Db, Outside, RunBody}
use buffdata.Runs.Lifecycle.Invariant.{IsSound}
use buffdata.Prelude.Json.{Json}
use buffdata.Runs.Lifecycle.{Digests}
use buffdata.Runs.Models.{RunSpec, RunStatus}
use buffdata.Runs.Sessions.{KeyManager}
use buffdata.Runs.Lifecycle.Calls.{
  submit-keeps, claim-keeps, heartbeat-keeps, finish-keeps, cancel-keeps, interrupt_stale-keeps,
}
use buffdata.Runs.Lifecycle.Bystanders.{
  ensure_project-keeps, update_project-keeps, add_dataset-keeps, delete_dataset-keeps,
  record_event-keeps, get_or_create_data_key-keeps, add_webhook-keeps, delete_webhook-keeps,
  save_session-keeps, session-keeps,
}
use buffdata.Runs.Lifecycle.Kept.{IsKept, IsSound-IsKept}

pub data Call : Type 0 where
  ensure_project : Outside → String → Json → Call
  update_project : Outside → String → Json → String → Call
  add_dataset : Outside → String → String → Json → Call
  delete_dataset : Outside → String → String → String → Call
  submit : Digests → Outside → RunSpec → String → String → RunBody → Call
  claim : Outside → String → Option String → Call
  heartbeat : Outside → String → String → Option String → Call
  finish :
      Outside
      → String
      → String
      → Option String
      → RunStatus
      → Option Json
      → Option String
      → Option ℕ
      → Call
  cancel : Outside → String → String → String → Call
  interrupt_stale : Outside → String → String → Call
  record_event : Outside → String → Option String → String → Json → Call
  get_or_create_data_key : KeyManager → Outside → String → Call
  add_webhook : Outside → String → String → Json → Call
  delete_webhook : Outside → String → String → String → Call
  save_session : (String → String) → Outside → String → Json → ℕ → Call
  session : (String → String) → Outside → String → Bool → Call

-- The tables after a call, whether it returned or raised.
unfoldable pub perform : Call → Db → Db
perform (Call.ensure_project o p b) d = (Store.ensure_project o p b d).1
perform (Call.update_project o p b a) d = (Store.update_project o p b a d).1
perform (Call.add_dataset o p i b) d = (Store.add_dataset o p i b d).1
perform (Call.delete_dataset o p i a) d = (Store.delete_dataset o p i a d).1
perform (Call.submit h o s a k b) d = (Lifecycle.submit h o s a k b d).1
perform (Call.claim o p i) d = (Lifecycle.claim o p i d).1
perform (Call.heartbeat o p i l) d = (Lifecycle.heartbeat o p i l d).1
perform (Call.finish o p i l s m e b) d = (Lifecycle.finish o p i l s m e b d).1
perform (Call.cancel o p i a) d = (Lifecycle.cancel o p i a d).1
perform (Call.interrupt_stale o p i) d = (Lifecycle.interrupt_stale o p i d).1
perform (Call.record_event o p i k b) d = (Sessions.record_event o p i k b d).1
perform (Call.get_or_create_data_key k o p) d = (Sessions.get_or_create_data_key k o p d).1
perform (Call.add_webhook o p i b) d = (Sessions.add_webhook o p i b d).1
perform (Call.delete_webhook o p i a) d = (Sessions.delete_webhook o p i a d).1
perform (Call.save_session h o t b l) d = (Sessions.save_session h o t b l d).1
perform (Call.session h o t c) d = (Sessions.session h o t c d).1

unfoldable pub perform_all : List Call → Db → Db
perform_all [] d = d
perform_all (c ∷ cs) d = perform_all cs (perform c d)

-- The id of a submitted run is a UUID in hexadecimal, so it is no empty text.
abbrev pub IsNamed : Call → Type 0
IsNamed (Call.submit h o s a k b) = b.id ≢ ""
IsNamed _ = Unit

abbrev pub no_tables : Db
no_tables = record {
  projects = [];
  datasets = [];
  runs = [];
  events = [];
  sessions = [];
  webhooks = [];
  project_keys = [];
}

-- What each write keeps, every sequence of calls keeps.
module _ (P : Db → Type 0) (kept : IsKept P) where
  pub perform-keeps : (c : Call) (d : Db) → IsNamed c → P d → P (perform c d)
  unfolding perform
  perform-keeps (Call.ensure_project o p b) d n h = ensure_project-keeps P kept o p b d h
  perform-keeps (Call.update_project o p b a) d n h = update_project-keeps P kept o p b a d h
  perform-keeps (Call.add_dataset o p i b) d n h = add_dataset-keeps P kept o p i b d h
  perform-keeps (Call.delete_dataset o p i a) d n h = delete_dataset-keeps P kept o p i a d h
  perform-keeps (Call.submit g o s a k b) d n h = submit-keeps P kept g o s a k b d n h
  perform-keeps (Call.claim o p i) d n h = claim-keeps P kept o p i d h
  perform-keeps (Call.heartbeat o p i l) d n h = heartbeat-keeps P kept o p i l d h
  perform-keeps (Call.finish o p i l s m e b) d n h = finish-keeps P kept o p i l s m e b d h
  perform-keeps (Call.cancel o p i a) d n h = cancel-keeps P kept o p i a d h
  perform-keeps (Call.interrupt_stale o p i) d n h = interrupt_stale-keeps P kept o p i d h
  perform-keeps (Call.record_event o p i k b) d n h = record_event-keeps P kept o p i k b d h
  perform-keeps (Call.get_or_create_data_key k o p) d n h =
      get_or_create_data_key-keeps P kept k o p d h
  perform-keeps (Call.add_webhook o p i b) d n h = add_webhook-keeps P kept o p i b d h
  perform-keeps (Call.delete_webhook o p i a) d n h = delete_webhook-keeps P kept o p i a d h
  perform-keeps (Call.save_session g o t b l) d n h = save_session-keeps P kept g o t b l d h
  perform-keeps (Call.session g o t c) d n h = session-keeps P kept g o t c d h

  pub perform_all-keeps : (cs : List Call) (d : Db) → All IsNamed cs → P d → P (perform_all cs d)
  unfolding perform_all
  perform_all-keeps [] d n h = h
  perform_all-keeps (c ∷ cs) d n h =
      perform_all-keeps cs (perform c d) n.1 (perform-keeps c d n.0 h)

-- After any calls whose submitted ids are no empty texts, from empty tables on, every run is
-- accounted for, and no run id is used twice.
pub perform_all-IsSound : (cs : List Call) → All IsNamed cs → IsSound (perform_all cs no_tables)
perform_all-IsSound cs named =
    perform_all-keeps IsSound IsSound-IsKept cs no_tables named (record { keys = tt; rows = tt })
