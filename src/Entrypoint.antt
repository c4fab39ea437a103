-- ===== src/Entrypoint.antt =====
-- The entry points of the application and of Envoy, and the monitors that wait for containers.
pub mod Signals
pub mod App
pub mod Envoy
pub mod Monitor
pub mod AppStops
pub mod EnvoyStops
pub mod MonitorEnds
