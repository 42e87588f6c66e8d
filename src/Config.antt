-- ===== src/Config.antt =====
-- config.rs: the configuration file, its overrides from the environment, and its check.
pub mod Schema
pub mod Validate
pub mod Env
pub mod Usable
pub mod Loading
