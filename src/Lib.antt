-- ===== src/Lib.antt =====
-- Verification of the device library of core-v-mini-mcu: the drivers of the DMA, of the interrupt
-- controller, of the pins, of the system controller, of the timer, of the serial line and of the
-- SPI host, the SDK of the SPI host and the driver of the flash memory, and the bit fields and
-- register accesses that they stand on.
--
-- The parts and their files:
--  * Bitfield: sw/device/lib/base/bitfield.h. Fields and single bits of a 32-bit word, with
--    bitfield_read and bitfield_write. Bits says what a write does to each bit, Fields treats a
--    field as a variable, OneBit is about fields of one bit.
--  * Mmio: sw/device/lib/base/mmio.h. A region is the function from the index of a 32-bit register
--    to its word; each accessor has the name it has in the header.
--  * Dma: sw/device/lib/drivers/dma. Types, Config and Reg hold the data of dma.h and the offsets of
--    dma_regs.h. Target is validate_target and the region and alignment checks. Validate is
--    dma_validate_transaction, cut into one function for each check, in the order of the code;
--    Refusal describes what it refuses without an order. Load is dma_load_transaction, cut into one
--    function for each group of register writes. Launch is dma_launch, Interrupt is
--    handler_irq_dma and fic_irq_dma, Init is dma_init.
--  * Plic: sw/device/lib/drivers/rv_plic. The enable bits, triggers, priorities, the threshold, the
--    claim and the completion of an interrupt, and the array of handlers.
--  * Gpio: sw/device/lib/drivers/gpio. The operations on one pin, in the peripheral of its domain;
--    the pointer gpio_perif to the selected one is part of the state.
--  * SpiHost: sw/device/lib/drivers/spi_host. The operations on a host and its interrupt handlers;
--    Word is the command and option words, Flag and Reg the codes and the register offsets.
--  * SpiSdk: sw/device/lib/sdk/spi. Types and Code are the data; Slave is the clock divider and the
--    options of a slave, Segments the checks of the segments, Transfer the parts of a transfer,
--    Events the handlers of interrupts, Api and Exchange the exported functions. Progress, Run,
--    Outcome and Launched under Events follow a transfer from its launch through any sequence of
--    interrupts and changes of the device, which is the step relation Step of Run.
--  * SocCtrl: sw/device/lib/drivers/soc_ctrl. The exit value, the frequency and the selection of the
--    SPI, on the memory with the base address of the registers.
--  * Flash: sw/device/bsp/w25q. Steps over the SPI host in order; Erase is the wait for the flash, the
--    resets and the erases, Write the checks and the writes, Pages and Range the pages of a write.
--    Read is the reads without the DMA: Answer, Commands, Words and Bytes follow what they send,
--    issue and store on a host that answers at once. Update is erase_and_write over the record of the
--    calls that its variants differ in, Sectors the parts that it cuts a range into, and Last the
--    updates that reach the last sector; Variants are the updates without the DMA. Init is the initialisation, with the quad enable bit in
--    Enable and the clock in Divider. Dma is the reads and the writes with the DMA, over the state of
--    the DMA's driver, the SPI host and the bytes of the RAM; Whole is the functions that choose
--    between the others, Send, Static and Refused the sends that the DMA refuses, Lost the page of such a
--    send, Loaded and Started the sends that it accepts.
--  * Timer: sw/device/lib/drivers/rv_timer. Ticks is the computation of the prescaler and the step,
--    Counter the read of the 64-bit counter, Compare the writes that arm a comparator, as a list in
--    their order, and the module itself the other operations, the reset and the initialisation.
--  * Uart: sw/device/lib/drivers/uart. Baud is the frequency word of the baud rate, Bytes the bytes
--    that are sent and read.
--  * Base: numbers, bits, words and tests that the parts share. Examples: concrete runs.
--
-- How they interact: an application validates a transaction, which writes the verdict into its
-- flags; loading reads the flags and writes the registers of the transaction's channel; launching
-- writes the sizes, which starts the transfer; the interrupt handlers raise the flag of a channel,
-- which the waiting loop of a launch reads. The state that they share is the record World: targets
-- and transactions by address, the registers of each peripheral by address, the channels of
-- dma_subsys_per, the two counters of high priority interrupts, and the control registers mie and
-- mstatus of the core. Two channels may share a peripheral, and a source may be shared by two
-- transactions, as in the code.
--
-- The SDK of the SPI host keeps one Peri for each host. A transfer is checked, launched and then
-- driven by the interrupts of the host: irq_spi of SpiHost reads the events and the handlers of
-- SpiSdk.Events fill and empty the queues and issue the next segment. The words written to the data
-- and command windows and the words read are part of the host, so that what was really sent, issued
-- and received can be compared with the buffers and the segments.
--
-- The driver of the flash runs on the SPI host, and its functions that use the DMA validate, load
-- and launch transactions of the DMA's driver. Their targets and transactions are static variables
-- of the functions, so the flags that a validation leaves are there at the next call.
--
-- Numbers are natural numbers. Where the code computes in uint32_t, uint16_t or uint8_t the
-- wrap-around is written out (u32, u16, u8, sub32, shl32, not32). A value that the code only stores
-- or compares is not bounded, and a theorem that needs a bound states it.
--
-- Fuel: the loops that may run for ever are given a number of rounds, and none means that they
-- still run after them. The waiting loop of dma_launch needs one round for the run that returns.
-- The wait of the SPI SDK needs one round more than those before its time is over. The loops of the
-- SPI host on its status, in spi_sw_reset and spi_wait_for_ready, end only if the device lets them,
-- and so do the waits for the flash, for the serial line and for the end of a DMA transfer; on a
-- host that answers at once the wait for the flash needs as many rounds as it reads busy words, and
-- one more. The loops over the chunks of a read and over the sectors of an update are given one
-- round more than bytes. The loop over the pages of a write is given as many rounds as bytes, the
-- algorithm of Euclid one round more than its second number, and 2^32 rounds are enough for the
-- read of the 64-bit counter of the timer. Every other loop runs over channels, registers,
-- interrupts, segments or words of a buffer and is structural recursion.
--
-- Parameters: what interrupts do before and within the waiting loop; the peripheral of a channel
-- (the generated macro dma_peri); the number of channels and the two options for priorities; the
-- interrupt numbers of the generated core_v_mini_mcu.h, of which there are at most 255, since the
-- counter of the reset loop has 8 bits; what the interrupt controller does to its registers when
-- one is read back, and what a handler does to them; the number of pins and the limit of the
-- always-on domain; the registers that the SPI device leaves after an access, the words that it
-- receives, the ticks of the cycle counter and what the interrupts do in each round of a wait, and
-- the value of spi_get_active, whose body returns none; the compiler's byte swap of a word; the
-- registers of the timer at each access of the read of its counter; what the DMA and the SPI host
-- do to their registers and to the RAM between two reads of the DMA's status; the registers that
-- the serial line leaves after an access and the bytes that it receives; for the theorems on the
-- commands of the flash, a device whose status is that of a host that is ready and has a word, and
-- for the end of a wait of the SPI SDK, a device that is idle and empty once it is asked to reset.
--
-- Not modelled: the hardware's own changes to registers, apart from these parameters; the handlers
-- of the application; DMA_STATIC_ASSERT, which is empty; NULL transactions; the functions of
-- bitfield.h over compiler builtins; the copies of mmio.c; the configuration of a pin in one call,
-- the reset of all pins and the handlers of the pins; the byte write, the state readers and the
-- other waits of the SPI host; what a callback of a transfer does, which is taken not to call the
-- driver; the copy of the pointer to the SPI host at start-up in the driver of the flash, and its
-- code for TARGET_SIM; the other drivers, the SDK of the DMA and the timer, the runtime, the
-- applications and the hardware.
pub mod Base
pub mod Bitfield
pub mod Mmio
pub mod Dma
pub mod Plic
pub mod Gpio
pub mod SocCtrl
pub mod SpiHost
pub mod SpiSdk
pub mod Flash
pub mod Timer
pub mod Uart
pub mod Examples
