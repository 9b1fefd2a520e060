-- ===== src/Runs/Models.antt =====
-- buffdata/runs/models.py: the statuses of a run and the specification that a caller submits.
use buffdata.Prelude.{ℕ, String, ◌≡◌, ◌↔◌, Bool, true, false, Option, List, Eq, arith}
use buffdata.Prelude.Json.{Json}

pub data RunStatus : Type 0 where
  queued running succeeded failed cancelled interrupted : RunStatus

abbrev pub status_beq : RunStatus → RunStatus → Bool
status_beq RunStatus.queued RunStatus.queued = true
status_beq RunStatus.running RunStatus.running = true
status_beq RunStatus.succeeded RunStatus.succeeded = true
status_beq RunStatus.failed RunStatus.failed = true
status_beq RunStatus.cancelled RunStatus.cancelled = true
status_beq RunStatus.interrupted RunStatus.interrupted = true
status_beq _ _ = false

pub status_beq_iff : (a b : RunStatus) → (status_beq a b ≡ true) ↔ (a ≡ b)
status_beq_iff a b = ground arith

instance abbrev pub status_eq : Eq RunStatus
status_eq = record { equals = status_beq; equals_iff = status_beq_iff }

-- The validated specification of a run; a float is kept as its JSON text.
pub record RunSpec : Type 0 where
  pub project_id : String
  pub dataset_id : String
  pub configuration : Json
  pub output_format : String
  pub validation_dataset_id : Option String
  pub require_positive_gain : Bool
  pub accuracy_seeds : List ℕ
  pub accuracy_epochs : ℕ
  pub accuracy_min_gain : String
  pub accuracy_max_train_rows : ℕ

-- RunConflict, and the exceptions of the store and its database.
pub data StoreError : Type 0 where
  run_conflict : String → StoreError
  key_error : String → StoreError
  no_result_found integrity_error decrypt_error : StoreError
