-- ===== src/Examples.antt =====
-- Runs of the theorems on concrete registers, transactions and channels, and the data they run on.
mod Data
mod Spi
mod Flash
mod Update
mod Uart
mod Words
mod Validate
mod Load
mod Launch
mod Interrupt
mod Plic
mod Gpio
mod Timer
