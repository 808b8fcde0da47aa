-- ===== src/Core.antt =====
-- src/core: the managers that a workspace is made of.
pub mod XRefs
pub mod Blocks
pub mod Symbols
pub mod Locations
pub mod Records
pub mod Workspace
