-- ===== src/Radio.antt =====
-- sx126x/sx126x.c: the driver of the LoRa radio.
pub mod Chip
pub mod Spi
pub mod Command
pub mod Begin
pub mod Settings
pub mod Codes
pub mod Packet
pub mod Quiet
pub mod Moves
pub mod Reports
pub mod Detached
pub mod Received
pub mod Transmit
pub mod SetUp
pub mod Agree
pub mod Recursion
