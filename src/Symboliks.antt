-- ===== src/Symboliks.antt =====
-- src/symboliks: symbolic values, their reduction, and the bounded constraint solver.
pub mod Value
pub mod Reducer
pub mod Solver
pub mod Effect
pub mod Emulator
pub mod Graph
pub mod Paths
