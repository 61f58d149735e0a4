-- ===== src/Scenario.antt =====
-- internal/scenario: the decision engine of a virtual SMSC.
pub mod Mix
pub mod Engine
pub mod Evaluate
