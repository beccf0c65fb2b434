-- ===== src/Rnode.antt =====
-- src/rnode.c: the RNode protocol between the client and the radio.
pub mod Report
pub mod Air
pub mod Reassembly
pub mod Receive
pub mod Send
pub mod Split
pub mod First
pub mod Link
pub mod Start
pub mod SetUp
pub mod Settings
pub mod SetQuery
pub mod Answers
pub mod Sha256
pub mod Padding
pub mod Schedule
pub mod Commands
pub mod Dispatch
