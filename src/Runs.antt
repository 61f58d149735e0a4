-- ===== src/Runs.antt =====
-- The theorems at concrete inputs, one file for each part of the program, and tests of the definitions.
pub mod Wire
pub mod Clocks
pub mod Scenarios
pub mod Sessions
pub mod Receipts
pub mod Configs
pub mod Floors
pub mod Links
pub mod Boots
pub mod Engines
pub mod Surface
pub mod Talks
