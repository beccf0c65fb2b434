-- ===== src/Kiss.antt =====
-- src/kiss.c: KISS framing of what goes to and comes from the TCP client.
pub mod Encode
pub mod Decode
pub mod Frame
pub mod RoundTrip
pub mod Streams
pub mod Bounds
