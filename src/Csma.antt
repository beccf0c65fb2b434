-- ===== src/Csma.antt =====
-- src/csma.c: how busy the channel is, and how long to listen before a transmission.
pub mod Queries
pub mod Limits
pub mod Airtime
pub mod Window
pub mod Sampling
pub mod Kept
pub mod Range
pub mod Levels
pub mod Rssi
pub mod Params
