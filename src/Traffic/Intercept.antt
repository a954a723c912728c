-- ===== src/Traffic/Intercept.antt =====
-- src/traffic/shared/intercept: what is done with a packet that the driver captured.
pub mod Kinds
pub mod Packets
pub mod Panics
pub mod Tcp
pub mod Process
pub mod Quic
pub mod Answering
pub mod Safety
