-- ===== src/Gen/Written.antt =====
-- Resource files against the statements that the generator writes.
pub mod Field
pub mod WirelessDevice
pub mod NetworkInterface
pub mod Statements
pub mod Consistent
