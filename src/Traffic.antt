-- ===== src/Traffic.antt =====
-- src/traffic/shared: what the traffic drivers do with the packets that they capture.
pub mod Bytes
mod Samples
mod Tests
pub mod Sniff
pub mod Dns
pub mod Family
pub mod Intercept
pub mod Session
