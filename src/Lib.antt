-- ===== src/Lib.antt =====
-- vivisect-rs, a framework for the static analysis and emulation of binaries. This library models the
-- parts that its analyses rest on.
--
-- The parts, and the files that model them:
-- - The symbolic engine (src/symboliks). Expressions are trees over constants, variables, memory and
--   operations; `SymbolicValue::solve` gives the number that an expression stands for, with a hash in
--   place of each variable. Symboliks/Value, its child Solve, and its child Rewrite for substitution,
--   structural equivalence and normal names model src/symboliks/value.rs. The reducer folds constants
--   and simplifies: Symboliks/Reducer models src/symboliks/reducer.rs, with one function for each
--   early return of `reduce`. The solver finds the values of a variable that a set of constraints
--   admits, for the targets of a switch: Symboliks/Solver models the bounds and the checks of
--   src/symboliks/solver.rs, and Symboliks/Solver/Enumerate its entry points. Symboliks/Effect models
--   src/symboliks/effect.rs, and Symboliks/Emulator models src/symboliks/emulator.rs, which applies
--   effects to registers and memory that hold expressions; its abstract view,
--   Symboliks/Emulator/Machine, is a machine of numbers. Symboliks/Graph and Symboliks/Paths model the
--   graph of a function and the walk over its paths of src/symboliks/analysis.rs;
--   Symboliks/Paths/Steps says which paths a graph has.
-- - Mapped memory. Memory/Region models `MemoryRegion` of src/abstractions/memory.rs, Memory/Object
--   models `MemoryObject` of src/envi/memory.rs, a map from base addresses to regions, and
--   Memory/Image models `MemoryImage` of the same file with `normalize_mapped_image` of
--   src/parsers/pe.rs, by which the loaders map the sections of a file, and the records by which a
--   workspace is stored. The abstract view is `byte_at`, a function from addresses to bytes; the
--   properties refine the operations to it.
-- - The managers of a workspace. Core/XRefs models src/core/xrefs.rs, the cross-references in two
--   maps, Core/Symbols models src/core/symbols.rs, the names of addresses in two maps, and
--   Core/Locations models src/core/locations.rs, the defined locations by start address. Core/Blocks
--   models the functions of src/core/cfg.rs that find the successors and predecessors of a block in
--   the cross-references.
-- - The workspace. Core/Workspace models `VivWorkspace` of src/core/workspace.rs, the owner of the
--   memory image and of the managers, with its records in Core/Records and a part of the calls that
--   change it in Core/Workspace/Setters and the load of a Mach-O file in Core/Workspace/Loading;
--   Core/Workspace/Changes has these calls as data and runs sequences of them, Core/Workspace/Lookup has
--   the search for the location of an address, and Core/Workspace/BlockEdges has the successors, the
--   predecessors and the last instruction of a block.
-- - Structures. Vstruct/BitField models src/vstruct/bitfield.rs; Vstruct/Number and Vstruct/Text model
--   the numbers, byte arrays and strings of src/vstruct/primitives.rs.
-- - Abstractions/Registers models src/abstractions/registers.rs, and Analysis/Strings models
--   src/analysis/strings.rs, which finds strings in a slice of bytes. Utils models the arithmetic of
--   src/utils/mod.rs.
-- - Word is Rust's `u64`, with its binary digits and fields of bits, HashMap the standard library's
--   map with names as keys, IndexMap the interface of the crate indexmap, BTreeMap the ordered map of
--   the standard library, Error the errors of src/error.rs, and Base the names that all modules share.
--
-- How code is rendered. A `u64` is a number below 2 ^ 64, and each operation writes its wrap-around
-- out. A sum, difference or product that overflows wraps, as in a release build. Bytes are numbers, a
-- `BTreeMap` is a list of entries in the order of their keys, and a `HashMap` is a map whose order of
-- entries is not read. A function that mutates its object returns the new object; `VivResult` is a
-- sum. The standard library's `DefaultHasher`, which `solve` uses for names, is a parameter `hash`,
-- and the functions of the crate `byteorder` are the interface `ByteOrder` of Vstruct/Number. The map
-- of the crate `indexmap`, which keeps the order of insertion, is the interface `IndexMaps` of
-- IndexMap, and its child Entries fills it with lists. The decoder of the crate `iced-x86` is a
-- parameter `decode`, which gives the size of an instruction and whether it falls through. The reader of
-- Mach-O files, which calls the crate `goblin`, is a parameter `from_bytes`, and the digest of the
-- crate `md5` a parameter `md5`.
--
-- Bounds and fuel. The sampling loop of `enumerate_values` runs on fuel; a call returns when the fuel
-- is two more than the size of the range, under the conditions that the result on its return states.
-- The loop over a whole range needs no fuel, since it counts the numbers that are left. Counting
-- trailing zeros takes 64 rounds, as many as a `u64` has bits. The walk over paths runs on fuel; each
-- edge that it follows leaves one visit less of those that `max_loop_count` allows to the blocks, so
-- some fuel is enough. The search for the last instruction of a block has one round of fuel for each
-- byte and one more, and each round passes at least one byte. The scan for strings has one round of
-- fuel for each byte, and each round passes at least one byte.
--
-- What is not modelled. The readers of files, which hand them to a parser library, and the loading of
-- PE and ELF files into the workspace, so that the sequences of calls of Core/Workspace/Changes have
-- the loads of Mach-O files only; the decoders and emulators, which call other libraries, and the
-- translator, which works on their instructions; the graphs of src/core/cfg.rs and
-- src/core/callgraph.rs, which are those of a graph library; the digest of a workspace, its frozen
-- view, its passes other than the scan for strings, and its storage; remote access, traces, and
-- printing. In the modelled parts, the iterators that only pass a map on, `Display`, and what uses
-- floating point or a hash of a structure.
pub mod Base
pub mod Word
pub mod BTreeMap
pub mod HashMap
pub mod IndexMap
pub mod Error
pub mod Memory
pub mod Core
pub mod Symboliks
pub mod Vstruct
pub mod Analysis
pub mod Abstractions
pub mod Utils
