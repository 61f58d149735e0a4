-- ===== src/Config.antt =====
-- internal/config: the configuration of the simulator, and its validation.
pub mod Enums
pub mod Schema
pub mod Profiles
pub mod Faults
pub mod Validate
pub mod Topology
pub mod Accepted
