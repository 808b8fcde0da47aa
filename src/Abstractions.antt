-- ===== src/Abstractions.antt =====
-- src/abstractions: what the emulators and the analyses have in common.
pub mod Registers
