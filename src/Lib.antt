-- ===== src/Lib.antt =====
-- BuffData: a toolkit that validates, cleans, scores, filters and classifies datasets for language
-- models, with a managed-run server beside it.
--
-- The parts, and the files that model them (paths from the repository's root):
--   - buffdata/runs/models.py: Runs/Models. The statuses of a run, its specification, the errors.
--   - buffdata/runs/store.py: Runs/Tables has the rows of the metadata database and the database as a
--     record of tables; Runs/Store the projects, datasets and events; Runs/Lifecycle the life of a run
--     (submit, claim, heartbeat, finish, cancel, interrupt_stale); Runs/Sessions the data keys,
--     webhooks and login sessions. A method is an `Action`: from the tables to an answer or an error,
--     and the tables. `RunStore.transaction` is `rollback_on_raise`, which brings the tables back where
--     the method raises. Clock, random tokens and the digests are arguments of each call.
--   - buffdata/models/schemas.py: Models/Item has a dataset record and the texts taken from it,
--     Models/Edit the change of these by `update_content`, Models/Codec `from_dict` and `to_dict`.
--   - buffdata/engine/validator.py: Engine/Validator.
--   - buffdata/engine/pipeline.py: Engine/Pipeline. `OptimizationPipeline.run` as seven stages on the
--     accepted and rejected records; the optimizers and the model provider are the record `Services`.
--     Engine/Pipeline/Checkpoint has the checkpoints, which `to_dict` writes and `from_dict` reads.
--   - buffdata/governance/access.py: Governance/Access. The role policy and its check.
--   - buffdata/governance/contract.py: Governance/Contract. `check_contract` on what it reads of a report.
--   - buffdata/optimizers/dedup.py: Optimizers/Dedup. The three local methods over one loop.
--   - buffdata/optimizers/gated_generator.py: Optimizers/GatedGenerator. The loop of `generate`.
--   - buffdata/governance/audit_store.py: Governance/AuditStore. The audit table and the sums over it.
--   - buffdata/runs/service.py: Runs/Service. Lineage has the walk to the ancestors and the search for the
--     descendants of a run, Resume the submission of a run and of one in its place, Prepare the snapshots
--     of its inputs, Artifacts the checks of what a run published, Webhooks the registration and the messages when a run ends.
--     The disk, SHA-256 and HTTP are parameters.
--   - buffdata/evaluation/accuracy_gate.py: Evaluation/AccuracyGate. The rows that are trained on, and the
--     decision on the accuracies of each seed.
--   - buffdata/security/policy.py, network.py and sandbox_protocol.py: Security/Paths, Security/Network and
--     Security/Frames.
--   - buffdata/engine/limiter.py: Engine/Limiter. One turn at the lock of the rate limiter.
--   - buffdata/integrations/sharding.py: Integrations/Sharding.
--   - buffdata/runs/runner.py: Runs/Runner. A local run: claim, preparation, supervision of the subprocess,
--     and its end with the except branch. The subprocess, the monotonic clock and
--     what other processes do to the tables between two of its transactions are parameters; `prepare` is one step.
--   - buffdata/server/app.py: Server. A handler is an `Exec` with an HTTP status as its error. Server/Routes has
--     the routes for users, as one data type and one function; Server/Workers those for workers. Requests,
--     tokens and the identity provider are records of what is read of them.
--
-- A run of the server submits a dataset and a pipeline configuration to the store, a worker claims it,
-- runs the pipeline, sends heartbeats and finishes it. Calls of several processes reach the database as
-- transactions one after the other: Runs/Lifecycle/Reach has every sequence of calls.
--
-- A loop is over a list, or as many iterations as its caller allows. Four loops are recursive on fuel:
-- the two of `lineage` have one round more than there are runs, since each but the last sees a run that
-- was not seen; `_read_exact` has one for each byte that is missing, since each but the last reads
-- a byte. The loop of `supervise` has one round for each half second and one more, since a round sleeps
-- for half a second before the next one.
-- Numbers are natural numbers; times are whole microseconds. The floats that the gate of accuracies and the
-- data contracts compare are known by their bits only, and Python's operations on them are a parameter
-- (Prelude/Floats). The other scores, accuracies and confidences
-- are whole numbers of a small unit.
--
-- Not modelled: the network clients and their retries, the optimizers' own algorithms where the list
-- above does not name them, file formats, the command line, the login pages and the uploads of the server,
-- the executor and worker processes, reports and telemetry. They are input and output, or calls of
-- packages outside the repository.
pub mod Prelude
pub mod Models
pub mod Engine
pub mod Optimizers
pub mod Integrations
pub mod Evaluation
pub mod Runs
pub mod Security
pub mod Server
pub mod Governance
