-- ===== src/Core/Workspace.antt =====
-- src/core/workspace.rs: the workspace, and the operations that change it or look into it. Addresses are
-- below `2 ^ 64`; sums wrap, as in a release build. `L` is the type of the event listeners.
pub mod Setters
pub mod Changes
pub mod Pending
pub mod Generation
pub mod Lookup
pub mod Located
pub mod Distinct
pub mod Loading
pub mod VaSets
pub mod Listeners
pub mod BlockEdges
mod Tests
use vivisect_rs.Base.{
  ℕ, zero, suc, ◌+◌, ◌-◌, ◌%◌, ◌^◌, Bool, true, false, not, ◌&&◌, Option, none, some, String, List,
  [], ◌∷◌, ◌++◌, ◌==◌, ltb, leb, if◌then◌else◌, any, is_some, length, keep, map, str_eq,
  text_append, unwrap_or, ◌or_else◌,
}
use vivisect_rs.Word.{u64_mod, u64_max}
use vivisect_rs.BTreeMap.{BTreeMap, get, insert}
use vivisect_rs.HashMap.{NameMap, find_name, drop_name, put_name}
use vivisect_rs.IndexMap.{IndexMaps, keys, values_of, keys_of}
use vivisect_rs.Error.{VivResult, ok, err, invalid_function, invalid_memory, ◌>>=◌}
use vivisect_rs.Memory.Object.{total_size, read_memory, write_memory}
use vivisect_rs.Memory.Image.{Endian, little, MemoryImage, new_image, map_verbatim, with_mem}
use vivisect_rs.Core.Symbols.{SymbolTable, new_symbols, add_symbol, get_address, get_name}
use vivisect_rs.Core.XRefs.{
  RefType, XRefManager, new_xrefs, add_xref, References, get_xrefs_to, get_xrefs_from,
}
use vivisect_rs.Core.Locations.{Location, LocationType}
use vivisect_rs.Core.Blocks.{CodeBlock}
use vivisect_rs.Core.Records.{
  Architecture, default_arch, FunctionMeta, Segment, FileInfo, VaSet, WorkspaceStats,
}

-- `struct VivWorkspace`. A `HashSet` of addresses is a map to the unit type.
pub record VivWorkspace (I : IndexMaps) (L : Type 0) : Type 0 where
  pub image : MemoryImage
  pub arch : Architecture
  pub locations : I.Map Location
  pub functions : I.Map FunctionMeta
  pub codeblocks : I.Map CodeBlock
  pub segments : List Segment
  pub symbols : SymbolTable
  pub xrefs : XRefManager
  pub comments : BTreeMap String
  pub meta : NameMap String
  pub entry_points : List ℕ
  pub files : List FileInfo
  pub pending_functions : List ℕ
  pub noreturn_vas : BTreeMap {0} Unit
  pub va_sets : NameMap (VaSet I)
  pub event_listeners : List (ℕ × L)
  pub next_listener_id : ℕ
  pub generation : ℕ

-- The generation after a change.
abbrev pub bump : ℕ → ℕ
bump n = (n + 1) % u64_mod

-- `Option<String> == Some(name)`.
abbrev pub is_named : String → FunctionMeta → Bool
is_named name m = elim m.name [ none ↦ false | some n ↦ str_eq n name ]

-- The loop of `get_function_by_name`.
unfoldable pub named_function : String → List (ℕ × FunctionMeta) → Option ℕ
named_function name [] = none
named_function name ((va, m) ∷ fs) = if is_named name m then some va else named_function name fs

-- The sum of sizes.
unfoldable pub sizes : List CodeBlock → ℕ
sizes [] = 0
sizes (b ∷ bs) = (b.size + sizes bs) % u64_mod

-- `VivWorkspace::new`.
abbrev pub new_workspace : (I : IndexMaps) {L : Type 0} → VivWorkspace I L
new_workspace I = record {
  image = new_image little;
  arch = default_arch;
  locations = I.empty;
  functions = I.empty;
  codeblocks = I.empty;
  segments = [];
  symbols = new_symbols;
  xrefs = new_xrefs;
  comments = [];
  meta = [];
  entry_points = [];
  files = [];
  pending_functions = [];
  noreturn_vas = [];
  va_sets = [];
  event_listeners = [];
  next_listener_id = 0;
  generation = 0;
}

module _ {I : IndexMaps} {L : Type 0} where
  -- `get_function`, `is_function` and `get_functions`.
  abbrev pub get_function : VivWorkspace I L → ℕ → Option FunctionMeta
  get_function ws va = I.find va ws.functions

  abbrev pub is_function : VivWorkspace I L → ℕ → Bool
  is_function ws va = is_some (get_function ws va)

  abbrev pub get_functions : VivWorkspace I L → List ℕ
  get_functions ws = keys I ws.functions

  -- `add_function`.
  unfoldable pub add_function : VivWorkspace I L → ℕ → FunctionMeta → VivResult (VivWorkspace I L)
  add_function ws va m =
      if is_function ws va
      then err (invalid_function va)
      else ok (record ws {
        functions = I.put va m ws.functions;
        pending_functions = ws.pending_functions ++ (va ∷ []);
        generation = bump ws.generation;
      })

  -- `drain_pending_functions`: the workspace, and the functions added since the last call.
  unfoldable pub drain_pending_functions : VivWorkspace I L → VivWorkspace I L × List ℕ
  drain_pending_functions ws = (record ws { pending_functions = [] }, ws.pending_functions)

  -- `get_function_by_name`: functions first, then the symbol table.
  unfoldable pub get_function_by_name : VivWorkspace I L → String → Option ℕ
  get_function_by_name ws name =
      named_function name (I.entries ws.functions) or_else get_address ws.symbols name

  -- `set_function_name`.
  unfoldable pub set_function_name : VivWorkspace I L → ℕ → String → VivWorkspace I L
  set_function_name ws va name = record ws {
    functions = elim (I.find va ws.functions) [
      | none ↦ ws.functions
      | some m ↦ I.put va (record m { name = some name }) ws.functions
    ];
    symbols = add_symbol ws.symbols va name;
  }

  -- `get_function_blocks` and `get_function_size`.
  unfoldable pub get_function_blocks : VivWorkspace I L → ℕ → List CodeBlock
  get_function_blocks ws func_va = keep (λ b. b.func_va == func_va) (values_of I ws.codeblocks)

  abbrev pub get_function_size : VivWorkspace I L → ℕ → ℕ
  get_function_size ws func_va = sizes (get_function_blocks ws func_va)

  -- `add_location`, `get_location` and `add_codeblock`.
  unfoldable pub add_location :
      VivWorkspace I L → ℕ → ℕ → LocationType → Option String → VivWorkspace I L
  add_location ws va size ltype tinfo = record ws {
    locations =
        I.put va (record { va = va; size = size; ltype = ltype; tinfo = tinfo }) ws.locations;
    generation = bump ws.generation;
  }

  abbrev pub get_location : VivWorkspace I L → ℕ → Option Location
  get_location ws va = I.find va ws.locations

  unfoldable pub add_codeblock : VivWorkspace I L → ℕ → ℕ → ℕ → VivWorkspace I L
  add_codeblock ws va size func_va = record ws {
    codeblocks = I.put va (record { va = va; size = size; func_va = func_va }) ws.codeblocks;
    generation = bump ws.generation;
  }

  abbrev pub get_codeblock : VivWorkspace I L → ℕ → Option CodeBlock
  get_codeblock ws va = I.find va ws.codeblocks

  -- `set_name`, `add_xref`, `set_comment` and `set_meta`.
  unfoldable pub set_name : VivWorkspace I L → ℕ → String → VivWorkspace I L
  set_name ws va name = record ws { symbols = add_symbol ws.symbols va name }

  unfoldable pub add_reference : VivWorkspace I L → ℕ → ℕ → RefType → VivWorkspace I L
  add_reference ws from to r = record ws { xrefs = add_xref ws.xrefs from to r }

  unfoldable pub set_comment : VivWorkspace I L → ℕ → String → VivWorkspace I L
  set_comment ws va comment = record ws { comments = insert va comment ws.comments }

  unfoldable pub set_meta : VivWorkspace I L → String → String → VivWorkspace I L
  set_meta ws key value = record ws { meta = put_name key value ws.meta }

  -- `get_comment` and `get_meta`.
  abbrev pub get_comment : VivWorkspace I L → ℕ → Option String
  get_comment ws va = get va ws.comments

  abbrev pub get_meta : VivWorkspace I L → String → Option String
  get_meta ws key = find_name key ws.meta

  -- `add_noreturn_va`, `is_noreturn_va` and `get_noreturn_vas`.
  unfoldable pub add_noreturn_va : VivWorkspace I L → ℕ → VivWorkspace I L
  add_noreturn_va ws va = record ws { noreturn_vas = insert va tt ws.noreturn_vas }

  abbrev pub is_noreturn_va : VivWorkspace I L → ℕ → Bool
  is_noreturn_va ws va = is_some (get va ws.noreturn_vas)

  unfoldable pub get_noreturn_vas : VivWorkspace I L → List ℕ
  get_noreturn_vas ws = map (λ e. e.0) ws.noreturn_vas

  -- `is_function_thunk`.
  unfoldable pub is_function_thunk : VivWorkspace I L → ℕ → Bool
  is_function_thunk ws va = elim (I.find va ws.functions) [
    | none ↦ false
    | some m ↦ is_some (find_name "Thunk" m.meta)
  ]

  -- `stats`.
  unfoldable pub workspace_stats : VivWorkspace I L → WorkspaceStats
  workspace_stats ws = record {
    functions = length (I.entries ws.functions);
    locations = length (I.entries ws.locations);
    codeblocks = length (I.entries ws.codeblocks);
    segments = length ws.segments;
    symbols = length ws.symbols.by_address;
    xrefs = ws.xrefs.count;
    memory_size = total_size ws.image.mem.regions;
  }
