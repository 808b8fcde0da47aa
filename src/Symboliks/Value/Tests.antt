-- ===== src/Symboliks/Value/Tests.antt =====
-- Inputs for the opposites of comparisons, src/symboliks/value.rs.
