-- ===== src/Dma.antt =====
-- sw/device/lib/drivers/dma: the driver of the DMA peripheral. A transaction is validated, loaded
-- into the registers of its channel and launched; the interrupt handlers serve the channels.
pub mod Config
pub mod Reg
pub mod Types
pub mod Target
pub mod Validate
pub mod Load
pub mod Launch
pub mod Interrupt
pub mod Init
