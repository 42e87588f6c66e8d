-- ===== src/Cli.antt =====
-- bin/raemote.rs: the commands that change the configuration.
pub mod Settings
pub mod Stored
pub mod Apps
pub mod Hiding
