-- ===== src/Tests.antt =====
-- The theorems at concrete inputs.
mod Adapter
mod Checksums
mod Chip
mod Statistics
mod Texts
mod Frames
mod Handlers
mod Host
mod Memory
mod Several
mod Words
mod Lines
