-- ===== src/HealthSync.antt =====
-- subcommand/health-sync: the checks of a task's containers are kept in step with their health in
-- ECS, until the task shuts down.
pub mod Naming
pub mod Containers
pub mod Fetch
pub mod Checks
pub mod Loop
pub mod Critical
pub mod Told
pub mod Overall
pub mod Steady
pub mod Shutdown
pub mod Kept
pub mod Replayed
pub mod Start
pub mod Started
