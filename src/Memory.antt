-- ===== src/Memory.antt =====
-- src/abstractions/memory.rs and src/envi/memory.rs: regions, the memory object over them, and the
-- memory image of a workspace.
pub mod Region
pub mod Object
pub mod Image
