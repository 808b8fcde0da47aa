-- ===== src/Vstruct.antt =====
-- src/vstruct: structures that are parsed from bytes and emitted as bytes.
pub mod BitField
pub mod Number
pub mod Text
