-- ===== src/SpiSdk.antt =====
-- sw/device/lib/sdk/spi: transfers over the SPI host, driven by its interrupts.
pub mod Code
pub mod Types
pub mod Slave
pub mod Segments
pub mod Transfer
pub mod Events
pub mod Api
pub mod Exchange
