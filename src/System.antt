-- ===== src/System.antt =====
-- The daemon as a whole: what its threads may assume of the shared state and keep.
pub mod Sound
pub mod Answers
pub mod Settings
pub mod Packets
pub mod Sending
pub mod Round
pub mod Interrupt
pub mod Commands
pub mod Stream
pub mod Turn
pub mod Steps
