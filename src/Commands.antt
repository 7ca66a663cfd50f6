-- ===== src/Commands.antt =====
-- The operator's commands on objectives: the same three of the command line
-- (scripts/hermesops-objectives.py) and of the HTTP controller (controller_api/objective_commands.py).
pub mod Plans
pub mod Cli
pub mod Store
pub mod Request
pub mod Journal
pub mod Controller
pub mod Change
pub mod Replay
pub mod Keeps
pub mod Agree
pub mod Closes
mod Examples
