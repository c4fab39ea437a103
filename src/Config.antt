-- ===== src/Config.antt =====
-- config/types.go, config/config.go: the configuration of all commands.
pub mod Tls
pub mod Precedence
pub mod Types
pub mod Decode
pub mod Registration
pub mod Settings
