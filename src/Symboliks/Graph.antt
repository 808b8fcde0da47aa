-- ===== src/Symboliks/Graph.antt =====
-- src/symboliks/analysis.rs: the symbolic graph of a function and the context of an analysis. The opcodes of
-- a block, which the walk does not read, are of a type `O`.
use vivisect_rs.Base.{ℕ, ◌==◌, Option, String, List, [], ◌∷◌, ◌++◌, if◌then◌else◌, length}
use vivisect_rs.BTreeMap.{BTreeMap, get, insert}
use vivisect_rs.HashMap.{NameMap, put_name}
use vivisect_rs.Symboliks.Value.{SymbolicValue}
use vivisect_rs.Symboliks.Effect.{SymbolicEffect}
use vivisect_rs.Symboliks.Emulator.{SymbolicEmulator, new_emulator, init_registers}

-- An outgoing edge: the address of the target, and the constraint under which it is taken.
abbrev pub Edge : Type 0
Edge = ℕ × Option SymbolicValue

-- `struct SymbolikBlock`.
pub record SymbolikBlock (O : Type 0) : Type 0 where
  pub va : ℕ
  pub opcodes : List O
  pub effects : List SymbolicEffect
  pub successors : List Edge

-- `struct SymbolikGraph`.
pub record SymbolikGraph (O : Type 0) : Type 0 where
  pub entry_va : ℕ
  pub blocks : BTreeMap (SymbolikBlock O)

-- `struct SymbolikAnalysisContext`.
pub record SymbolikAnalysisContext : Type 0 where
  pub pointer_size : ℕ
  pub pre_effects : List SymbolicEffect
  pub pre_constraints : List SymbolicValue
  pub func_callbacks : NameMap String
  pub max_paths : ℕ
  pub max_loop_count : ℕ

-- `SymbolikAnalysisContext::new`.
abbrev pub new_analysis_context : ℕ → SymbolikAnalysisContext
new_analysis_context pointer_size = record {
  pointer_size = pointer_size;
  pre_effects = [];
  pre_constraints = [];
  func_callbacks = [];
  max_paths = 1000;
  max_loop_count = 2;
}

-- `add_pre_effects`, `add_pre_constraints` and `add_func_callback`.
abbrev pub add_pre_effects : SymbolikAnalysisContext → List SymbolicEffect → SymbolikAnalysisContext
add_pre_effects ctx effects = record ctx { pre_effects = ctx.pre_effects ++ effects }

abbrev pub add_pre_constraints :
    SymbolikAnalysisContext → List SymbolicValue → SymbolikAnalysisContext
add_pre_constraints ctx constraints = record ctx {
  pre_constraints = ctx.pre_constraints ++ constraints;
}

abbrev pub add_func_callback : SymbolikAnalysisContext → String → String → SymbolikAnalysisContext
add_func_callback ctx name handler = record ctx {
  func_callbacks = put_name name handler ctx.func_callbacks;
}

-- The registers of `init_x64_registers` and of `init_x86_registers`.
abbrev pub x64_registers : List String
x64_registers =
    "rax" ∷ "rbx" ∷ "rcx" ∷ "rdx" ∷ "rsi" ∷ "rdi" ∷ "rbp" ∷ "rsp" ∷ "r8" ∷ "r9" ∷ "r10" ∷ "r11"
    ∷ "r12" ∷ "r13" ∷ "r14" ∷ "r15" ∷ []

abbrev pub x86_registers : List String
x86_registers = "eax" ∷ "ebx" ∷ "ecx" ∷ "edx" ∷ "esi" ∷ "edi" ∷ "ebp" ∷ "esp" ∷ []

-- `get_func_emu`.
unfoldable pub get_func_emu : SymbolikAnalysisContext → SymbolicEmulator
get_func_emu ctx =
    init_registers (new_emulator ctx.pointer_size)
      (if ctx.pointer_size == 8 then x64_registers else x86_registers)

module _ {O : Type 0} where
  -- `SymbolikGraph::new`, `add_block`, `get_block`, `entry_block` and `block_count`.
  abbrev pub new_graph : ℕ → SymbolikGraph O
  new_graph entry_va = record { entry_va = entry_va; blocks = [] }

  abbrev pub add_block : SymbolikGraph O → SymbolikBlock O → SymbolikGraph O
  add_block g b = record g { blocks = insert b.va b g.blocks }

  abbrev pub get_block : SymbolikGraph O → ℕ → Option (SymbolikBlock O)
  get_block g va = get va g.blocks

  abbrev pub entry_block : SymbolikGraph O → Option (SymbolikBlock O)
  entry_block g = get g.entry_va g.blocks

  abbrev pub block_count : SymbolikGraph O → ℕ
  block_count g = length g.blocks
