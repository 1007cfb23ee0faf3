-- ===== src/Util.antt =====
-- utilities.c and utilities.h, one module for each group of helpers.
pub mod Crc
pub mod Text
pub mod Numbers
pub mod Words
