-- ===== src/Analysis.antt =====
-- src/analysis: passes that look for structure in the bytes of a program.
pub mod Strings
