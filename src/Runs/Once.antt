-- ===== src/Runs/Once.antt =====
-- A run is integrated once: the tables `runs` and `integration_executions` of the three scripts.
pub mod Keeps
pub mod Transactions
pub mod Integrations
pub mod Recoveries
use hermes_ops.Orchestrator.Tables.{RunStatus, IntegrationStatus}
use hermes_ops.Prelude.{string_column, ◌+◌, ◌≤◌, String, Bool, true, false, ◌&&◌, List, ◌==◌, not}
use hermes_ops.Runs.Tables.{RunRow, IntegrationRow, is_run, RunDb}
use hermes_ops.Sql.{count_where}

-- An integration of the run that was begun, whatever became of it.
abbrev pub is_opened : IntegrationStatus → Bool
is_opened IntegrationStatus.prepared = true
is_opened IntegrationStatus.completed = true
is_opened IntegrationStatus.failed = true
is_opened _ = false

abbrev pub opened_for : String → IntegrationRow → Bool
opened_for run_id i = i.run_id == run_id && is_opened i.status

abbrev pub is_completed : IntegrationStatus → Bool
is_completed IntegrationStatus.completed = true
is_completed _ = false

abbrev pub completed_for : String → IntegrationRow → Bool
completed_for run_id i = i.run_id == run_id && is_completed i.status

-- A run that an integration can still be begun of.
abbrev pub is_early : RunStatus → Bool
is_early RunStatus.snapshotting = true
is_early RunStatus.running = true
is_early RunStatus.reviewing = true
is_early _ = false

abbrev pub early_run : String → RunRow → Bool
early_run run_id r = r.run_id == run_id && is_early r.status

-- Each run pays for one integration: as long as it is early, it has none.
abbrev pub IsOnce : List RunRow → List IntegrationRow → Type 0
IsOnce runs integrations =
    (x : String)
    → count_where (opened_for x) integrations + count_where (early_run x) runs
      ≤ count_where (is_run x) runs

abbrev pub Once : RunDb → Type 0
Once db = IsOnce db.runs db.integrations

-- An integration that was refused when it was written.
abbrev pub refused_with : String → IntegrationRow → Bool
refused_with integration_id i = i.integration_id == integration_id && not (is_opened i.status)
