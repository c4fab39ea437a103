-- ===== src/Tests.antt =====
-- Runs of the model and its theorems at concrete data.
pub mod Samples
pub mod Config
pub mod HealthSync
pub mod MeshInit
pub mod Controller
pub mod Entrypoint
pub mod Upserts
pub mod Start
pub mod Runs
