-- ===== src/Device.antt =====
-- The package `device`: everything between the servers and the meter.
pub mod Commands
pub mod Transport
pub mod Serial
pub mod Mock
pub mod Manager
pub mod Driver
pub mod Factory
