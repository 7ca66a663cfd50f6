-- ===== src/Lib.antt =====
-- HermesOps: a model of the control plane and its correctness.
--
-- HermesOps runs agents on the projects of one operator. An operator states objectives; a planner
-- makes each a plan, a graph of tasks; the orchestrator lets tasks go when their dependencies are
-- completed, reserves them for threads that execute them, and records how they end; the operator
-- pauses, resumes or cancels objectives from the command line or through the HTTP controller,
-- whose browser console follows along over a WebSocket. The parts share one SQLite database.
--
-- Files and the code they model:
--   Sql: the statements that the scripts give to sqlite3, over a table as a list of rows
--     (UPDATE is `update_where`, fetchone() is `fetch_one`, COUNT(*) is `count_where`).
--   Orchestrator: scripts/hermesops-orchestrator.py.
--     Tables: the columns that are read or written, of migrations 001, 007, 009 and 010. Gates:
--     the questions asked of the tables (`plan_has_active_human_gate`, `project_is_busy` ...).
--     Dag: `topological_order`. Refresh: `refresh_plan_states`. Reserve: `reserve_attempt` and
--     `reservation_ineligibility_reason`. Finish: `finish_task_success`, `finish_task_failure`,
--     `finish_task_waiting_human`. Objectives: `synchronize_objective_states`. Dispatch:
--     `promote_planned_objective`, `command_activate`, `command_cancel`. Invariant, and the files
--     named Keeps, Start, Inversion and Parents below: what every transaction keeps. System: any
--     sequence of those modelled.
--   Commands: the operator's `pause`, `resume` and `cancel`.
--     Plans and Cli: scripts/hermesops-objectives.py. Store, Request and Controller:
--     `command_objective` of controller_api/objective_commands.py, with the keys that make a
--     request idempotent. Journal: `emit` of controller_api/event_journal.py, with its checks.
--     Change, Keeps, Replay, Agree and Closes: what the commands change, keep, answer again, share
--     and close.
--   Runs: the runs of scripts/hermesops-transaction.py, scripts/hermesops-integrator.py and
--     scripts/hermesops-recovery.py, one agent's change of a project each. Tables: the columns of
--     migrations 001, 003, 006 and 007. Transaction, Integrator with its Commits, and Recovery:
--     their database transactions. Assess: `assess_run`. Decisions and Guards: when the recovery
--     acts, and when a run begins. Resuming: what a resumption comes to. Ungated and Integrating:
--     when an integration begins, and what it leaves. Exclusive and Once, with the files below
--     them: what every transaction keeps. System and Safe: any sequence of transactions.
--   Runtime: the event dispatcher of scripts/agent_runtime/contract.py, and the order in which the
--     control plane is handed a request's events.
--   Reviews: scripts/hermesops_review_assignment.py, over migration 019.
--     Checks: its validations and the constraints that it relies on. Assignments and Endings: its
--     operations. Sound and Keeps: what they keep. System: any sequence of them. Recovering and
--     Numbers: the recovery of a run, and the number of the next assignment.
--   Notifier: scripts/hermesops-notifier.py, over migration 011.
--     Outbox: the claim of a notification and the record of a delivery. Sound, Keeps and Finish:
--     what they keep. System: any processes that hold rows between the two.
--   WebSocket: controller_api/websocket_transport.py.
--     Frame: the frames, whose round trip and bounds are in Roundtrip and Bounds. Events: the
--     replay of the journal to a client. Growing and Delivery: a numbered journal, and what is
--     sent of it.
--   Prelude: JSON values, results, tests and lists that all parts use.
--
-- How code becomes definitions:
--   A transaction is a function from the tables to the tables or to a refusal; an exception rolls
--   back, so an error carries no tables. SQLite runs one BEGIN IMMEDIATE transaction at a time, so
--   threads and processes are a sequence of transactions. A status is a constructor. A timestamp
--   is a number of milliseconds: the code compares texts of one fixed format. A JSON column holds
--   the value, not its text. The creation time of an event and the identifiers that only the row
--   carries are not kept. Rows that ORDER BY leaves equal keep the order of the table. What Git,
--   the files of a snapshot and the containers show is an argument; work on them stands between
--   two transactions. The clock, fresh identifiers, hashes, `str.strip`, `str.lower` and Python's
--   UTF-8 decoder are arguments, and so are the regular expressions by which the journal finds
--   secrets, and whether a connection takes an event. `while ready` of `topological_order` runs on
--   fuel, one round for each task of the plan: a round takes a key that was not taken before.
--   `read_client_frame` and the transactions recurse on their input.
--
-- Not modelled: the orchestrator's recovery of interrupted tasks and of cancellations
-- (`reconcile_interrupted_tasks`, `finish_task_cancellation_recovery`,
-- `mark_cancellation_cleanup_recovery`), `heartbeat_attempt` and `insert_plan`, the planner's
-- prompts and the choice of an objective to plan, the executors (worker, reviewer), the runtime
-- adapters, validate_review of the integrator, the clean-up of containers and clones, the
-- supervisor, the notifier's collection of events and its channels, the registry, the read models
-- of the controller, sessions and the browser's sign-in, sandbox profiles, Hermesfiles, the rest
-- of the WebSocket session (subscriptions, heartbeats), the creation of objectives over HTTP, and
-- the installer, containers and console.
pub mod Prelude
pub mod Sql
pub mod Orchestrator
pub mod Commands
pub mod Runs
pub mod Runtime
pub mod Reviews
pub mod Notifier
pub mod WebSocket
