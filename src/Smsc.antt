-- ===== src/Smsc.antt =====
-- internal/smsc: the virtual SMSC, its binds and the session of one bind.
pub mod Binds
pub mod CloseReason
pub mod Session
pub mod Events
pub mod Submit
pub mod Handle
pub mod ReadLoop
pub mod Quiet
pub mod Transitions
pub mod Corpus
pub mod Lifecycle
pub mod Create
pub mod Writer
pub mod Steady
pub mod Registry
pub mod Boot
pub mod Engine
pub mod Views
pub mod Answers
pub mod Replay
