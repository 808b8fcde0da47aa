-- ===== src/Core/Workspace/Tests.antt =====
-- src/core/workspace.rs: runs.
use mathlib.Core.Path.{subst}
use vivisect_rs.Base.{
  ap, unwrap_or, ◌≤◌, ℕ, suc, ◌<◌, ◌≡◌, refl, Bool, true, false, none, some, List, [], ◌∷◌, ◌++◌,
  arith,
}
use vivisect_rs.Word.{u64_mod}
use vivisect_rs.IndexMap.{values_of}
use vivisect_rs.IndexMap.Entries.{entry_lists, put_entry}
use vivisect_rs.Error.{VivResult}
use vivisect_rs.BTreeMap.{get, values}
use vivisect_rs.Core.Locations.{op}
use vivisect_rs.Core.Workspace.{
  VivWorkspace, new_workspace, get_functions, add_function, add_location, set_name, set_meta,
  drain_pending_functions,
}
use vivisect_rs.Core.Workspace.Loading.{MachOParser}
use vivisect_rs.Core.Workspace.Changes.{
  Change, run_changes, all_handed_out, to_add_function, to_drain, to_add_location, to_set_name,
  to_add_listener, to_load_macho,
}
use vivisect_rs.Core.Workspace.Pending.{run_changes_handed_out}
use vivisect_rs.Core.Workspace.Generation.{SameAnalysis, run_changes_generation}
use vivisect_rs.Core.Workspace.Lookup.{IsScan, get_location_containing, max_by_va}
use vivisect_rs.Core.Workspace.Listeners.{remove_event_listener-add_event_listener}
use vivisect_rs.Core.Workspace.BlockEdges.{
  Decoded, Decoder, find_terminal_instruction, block_successors,
}
use vivisect_rs.Core.Workspace.BlockEdges.Terminal.{HasSizes, find_terminal_instruction_enough}
use vivisect_rs.Core.Workspace.BlockEdges.Agreement.{get_codeblocks_map, block_successors_agree}
use vivisect_rs.Core.Blocks.{CodeBlock, compute_block_successors}
use vivisect_rs.Core.Records.{amd64, FunctionMeta}
use vivisect_rs.Core.Workspace.Setters.{add_event_listener, remove_event_listener}
use vivisect_rs.Core.Workspace.Located.{run_changes_located}
use vivisect_rs.Core.Workspace.Distinct.{IsDistinct}

abbrev a_function : FunctionMeta
a_function = record {
  name = some "start";
  calling_convention = none;
  ret_type = none;
  args = [];
  locals = [];
  meta = [];
}

-- Two functions with a call that fails between them, and one that is added after the list was drained.
abbrev calls : List (Change Bool)
calls =
    to_add_function 4096 a_function
    ∷ to_add_function 4096 a_function
    ∷ to_add_function 8192 a_function
    ∷ to_drain
    ∷ to_add_location 4096 5 op none
    ∷ to_add_location 4101 2 op none
    ∷ to_add_listener true
    ∷ to_add_function 4112 a_function
    ∷ []

handed : all_handed_out (new_workspace entry_lists) calls ≡ 4096 ∷ 8192 ∷ []
unfolding add_function drain_pending_functions get put_entry add_location add_event_listener
handed = refl

run_changes_handed_out_example :
    (get_functions (run_changes (new_workspace entry_lists) calls)
      ≡ all_handed_out (new_workspace entry_lists) calls
        ++ (run_changes (new_workspace entry_lists) calls).pending_functions)
    × IsDistinct (
        all_handed_out (new_workspace entry_lists) calls
        ++ (run_changes (new_workspace entry_lists) calls).pending_functions)
run_changes_handed_out_example = run_changes_handed_out entry_lists calls

-- A Mach-O file of four bytes, which are mapped behind the functions.
abbrev a_file : MachOParser
a_file = record {
  raw_data = 85 ∷ 72 ∷ 137 ∷ 229 ∷ [];
  arch = amd64;
  entry_point = 16384;
  sections =
      record {
        name = "__text";
        virtual_address = 16384;
        virtual_size = 4;
        raw_size = 4;
        raw_offset = 0;
        executable = true;
        writable = false;
        readable = true;
      }
      ∷ [];
  exports = [];
  function_entries = [];
}

abbrev named : List (Change Bool)
named =
    to_set_name 4096 "start"
    ∷ to_drain
    ∷ to_load_macho a_file "sample" "d41d8cd9"
    ∷ to_add_function 4096 a_function
    ∷ []

abbrev loaded : VivWorkspace entry_lists Bool
loaded = run_changes (new_workspace entry_lists) calls

unchanged : (run_changes loaded named).generation ≡ loaded.generation
unfolding add_function drain_pending_functions get put_entry add_location add_event_listener
    set_name set_meta
unchanged = refl

small : loaded.generation < u64_mod
unfolding add_function drain_pending_functions get put_entry add_location add_event_listener
small = omega arith

run_changes_generation_example : SameAnalysis loaded (run_changes loaded named)
run_changes_generation_example = run_changes_generation loaded named small (omega arith) unchanged

middle :
    get_location_containing loaded 4102
    ≡ some (record { va = 4101; size = 2; ltype = op; tinfo = none })
unfolding get_location_containing max_by_va add_function drain_pending_functions get put_entry
    values add_location add_event_listener
middle = refl

run_changes_located_example :
    IsScan 4102
      (values_of entry_lists (run_changes (new_workspace entry_lists) calls).locations)
      (get_location_containing (run_changes (new_workspace entry_lists) calls) 4102)
run_changes_located_example = run_changes_located entry_lists calls 4102

remove_event_listener-add_event_listener_example :
    (remove_event_listener
      (add_event_listener (run_changes (new_workspace entry_lists) calls) false).0
      (add_event_listener (run_changes (new_workspace entry_lists) calls) false).1).event_listeners
    ≡ (run_changes (new_workspace entry_lists) calls).event_listeners
remove_event_listener-add_event_listener_example =
    remove_event_listener-add_event_listener entry_lists calls false (omega arith)

-- A decoder that takes every byte for an instruction that falls through.
abbrev one_byte : Decoder
one_byte bits [] va = none
one_byte bits (x ∷ xs) va = some (record { size = 1; falls_through = true })

one_byte-HasSizes : HasSizes one_byte
one_byte-HasSizes bits va [] r h = cc
one_byte-HasSizes bits va (x ∷ xs) r h =
    subst (λ (d : Decoded). (0 < d.size) × (d.size ≤ 15)) (ap (λ o. unwrap_or o r) h)
      (omega arith, omega arith)

find_terminal_instruction_enough_example :
    (r : VivResult ℕ) × (find_terminal_instruction one_byte (suc 4) loaded 4096 4 ≡ some r)
find_terminal_instruction_enough_example =
    find_terminal_instruction_enough one_byte loaded 4096 4 one_byte-HasSizes (omega arith)
      (omega arith)

abbrev a_block : CodeBlock
a_block = record { va = 4096; size = 4; func_va = 4096 }

block_successors_agree_example :
    block_successors loaded a_block true
    ≡ compute_block_successors a_block loaded.xrefs
        (get_codeblocks_map entry_lists loaded.codeblocks)
        true
block_successors_agree_example = block_successors_agree entry_lists loaded a_block true
