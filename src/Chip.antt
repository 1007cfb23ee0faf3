-- ===== src/Chip.antt =====
-- The commands that reach the chip past its firmware: the reset line over the GPIO files (gpioctrl.c),
-- the reset by register writes (reset.c), and the test and the access of memory (transraw.c).
pub mod Gpio
pub mod Reset
pub mod Trace
pub mod Lines
pub mod Memtest
pub mod Transraw
