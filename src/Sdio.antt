-- ===== src/Sdio.antt =====
-- transport/sdio_over_spi.c: SDIO commands and data blocks over a bus that exchanges octets. The
-- bus is the table of a transport's functions.
pub mod Frame
pub mod Response
pub mod Command
pub mod Block
pub mod Memory
pub mod Registers
