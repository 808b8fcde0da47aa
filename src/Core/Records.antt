-- ===== src/Core/Records.antt =====
-- src/core/workspace.rs and src/constants.rs: the records that a workspace is made of.
use vivisect_rs.Base.{ℕ, Option, String, List}
use vivisect_rs.HashMap.{NameMap}
use vivisect_rs.IndexMap.{IndexMaps}

-- `enum Architecture`.
pub data Architecture : Type 0 where
  default_arch i386 amd64 arm_v7 thumb16 thumb msp430 h8 a64 risc_v32 risc_v64 ppc_e32 ppc_e64
        ppc_s32 ppc_s64 ppc_vle ppc_d mcs51 rx_v2 sparc sparc64 mips32 mips64 m68k super_h :
      Architecture

-- `struct FunctionMeta`.
pub record FunctionMeta : Type 0 where
  pub name : Option String
  pub calling_convention : Option String
  pub ret_type : Option String
  pub args : List (String × String)
  pub locals : List (ℕ × String × String)
  pub meta : NameMap String

-- `struct Segment`.
pub record Segment : Type 0 where
  pub va : ℕ
  pub size : ℕ
  pub name : String
  pub filename : String

-- `enum BinaryFormat` of src/parsers/mod.rs, and `struct FileInfo`.
pub data BinaryFormat : Type 0 where
  pe elf mach_o blob unknown : BinaryFormat

pub record FileInfo : Type 0 where
  pub name : String
  pub base_addr : ℕ
  pub format : BinaryFormat
  pub md5 : Option String

-- `struct VaSet`.
pub record VaSet (I : IndexMaps) : Type 0 where
  pub columns : List (String × String)
  pub rows : I.Map (List String)

-- `struct WorkspaceStats`.
pub record WorkspaceStats : Type 0 where
  pub functions : ℕ
  pub locations : ℕ
  pub codeblocks : ℕ
  pub segments : ℕ
  pub symbols : ℕ
  pub xrefs : ℕ
  pub memory_size : ℕ
