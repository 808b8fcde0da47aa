-- ===== src/Core/Workspace/BlockEdges.antt =====
-- src/core/workspace.rs: the successors and predecessors of a code block, and its last instruction. The
-- decoder of the crate iced-x86, which `X86Disassembler::disassemble` calls, is the parameter `decode`: by
-- the number of bits of the mode, it gives the size of the first instruction of some bytes and whether it
-- falls through, or nothing. A loop that a decoded size of 0 would keep going is on fuel.
pub mod Terminal
pub mod Agreement
use mathlib.Core.Option
use vivisect_rs.Base.{
  ℕ, zero, suc, ◌+◌, ◌-◌, ◌%◌, min, Bool, true, false, ◌&&◌, Option, none, some, List, [], ◌∷◌,
  ◌++◌, ltb, leb, ◌==◌, if◌then◌else◌, is_some, length, drop,
}
use vivisect_rs.Word.{u64_mod, wrapping_add, wrapping_sub}
use vivisect_rs.IndexMap.{IndexMaps, keys, values_of, keys_of}
use vivisect_rs.Error.{VivResult, ok, err, invalid_function, ◌>>=◌}
use vivisect_rs.Memory.Object.{read_memory}
use vivisect_rs.Core.XRefs.{References, XRefManager, get_xrefs_from, get_xrefs_to}
use vivisect_rs.Core.Blocks.{CodeBlock, block_end, is_code, push_new, check_start, sources_loop}
use vivisect_rs.Core.Workspace.{VivWorkspace}
use vivisect_rs.Core.Records.{Architecture, i386, amd64}

-- What the loops read of an opcode.
pub record Decoded : Type 0 where
  pub size : ℕ
  pub falls_through : Bool

abbrev pub Decoder : Type 0
Decoder = ℕ → List ℕ → ℕ → Option Decoded

-- `codeblocks.contains_key`.
abbrev pub has_block : (I : IndexMaps) → I.Map CodeBlock → ℕ → Bool
has_block I blocks a = is_some (I.find a blocks)

-- The loop over the references from one address.
unfoldable pub block_targets : (I : IndexMaps) → I.Map CodeBlock → References → List ℕ → List ℕ
block_targets I blocks [] successors = successors
block_targets I blocks ((target, r) ∷ refs) successors =
    block_targets I blocks refs
      (if is_code r && has_block I blocks target then push_new target successors else successors)

-- The loop over the last 15 bytes, with the rounds that are left.
unfoldable pub last_bytes_loop :
    (I : IndexMaps) → XRefManager → I.Map CodeBlock → CodeBlock → ℕ → ℕ → List ℕ → List ℕ
last_bytes_loop I xrefs blocks b zero offset successors = successors
last_bytes_loop I xrefs blocks b (suc rounds) offset successors =
    let addr = wrapping_add (check_start b) offset in
    let rest =
      last_bytes_loop I xrefs blocks b rounds (offset + 1)
        (block_targets I blocks (get_xrefs_from xrefs addr) successors) in
    if leb (block_end b) addr then successors else rest

-- The mode of the disassembler.
abbrev pub mode_of : Architecture → Option ℕ
mode_of i386 = some 32
mode_of amd64 = some 64
mode_of arch = none

-- `if let Ok(falls_through)`.
abbrev pub or_not : VivResult Bool → Bool
or_not (ok b) = b
or_not (err e) = false

-- `get_block_successors`, by whether the block falls through.
unfoldable pub block_successors :
    {I : IndexMaps} {L : Type 0} → VivWorkspace I L → CodeBlock → Bool → List ℕ
block_successors {I = I} ws b falls_through =
    let successors = last_bytes_loop I ws.xrefs ws.codeblocks b (min b.size 15) 0 [] in
    if falls_through && has_block I ws.codeblocks (block_end b)
    then push_new (block_end b) successors
    else successors

module _ (decode : Decoder) where
  -- The loop of `find_terminal_instruction`.
  unfoldable pub terminal_loop : ℕ → ℕ → List ℕ → ℕ → ℕ → ℕ → ℕ → Option ℕ
  terminal_loop zero bits bytes block_va end_va current last = none
  terminal_loop (suc k) bits bytes block_va end_va current last =
      let offset = wrapping_sub current block_va in
      let next = elim (decode bits (drop offset bytes) current) as (λ x. Option ℕ) [
        | none ↦ some last
        | some op ↦
            terminal_loop k bits bytes block_va end_va (wrapping_add current op.size) current
      ] in
      if ltb current end_va
      then if leb (length bytes) offset then some last else next
      else some last

  module _ {I : IndexMaps} {L : Type 0} where
    -- `find_terminal_instruction`.
    unfoldable pub find_terminal_instruction : ℕ → VivWorkspace I L → ℕ → ℕ → Option (VivResult ℕ)
    find_terminal_instruction k ws block_va block_size =
        elim (read_memory ws.image.mem block_va block_size) [
          | err e ↦ some (err e)
          | ok bytes ↦ elim (mode_of ws.arch) [
            | none ↦ some (ok block_va)
            | some bits ↦ Option.map ok (
                terminal_loop k bits bytes block_va (wrapping_add block_va block_size) block_va
                  block_va)
          ]
        ]

    -- The end of `block_falls_through`, from the address of the last instruction.
    unfoldable pub terminal_falls_through : VivWorkspace I L → VivResult ℕ → VivResult Bool
    terminal_falls_through ws terminal = terminal >>= λ term_va.
        read_memory ws.image.mem term_va 16 >>= λ bytes. ok (elim (mode_of ws.arch) [
          | none ↦ true
          | some bits ↦ elim (decode bits bytes term_va) [
            | none ↦ true
            | some op ↦ op.falls_through
          ]
        ])

    -- `block_falls_through`.
    unfoldable pub block_falls_through : ℕ → VivWorkspace I L → ℕ → Option (VivResult Bool)
    block_falls_through k ws block_va = elim (I.find block_va ws.codeblocks) [
      | none ↦ some (err (invalid_function block_va))
      | some b ↦
          Option.map (terminal_falls_through ws) (find_terminal_instruction k ws block_va b.size)
    ]

    -- `get_block_successors`.
    unfoldable pub get_block_successors : ℕ → VivWorkspace I L → ℕ → Option (List ℕ)
    get_block_successors k ws block_va = elim (I.find block_va ws.codeblocks) [
      | none ↦ some []
      | some b ↦
          Option.map (λ r. block_successors ws b (or_not r)) (block_falls_through k ws block_va)
    ]

    -- The loop of `get_block_predecessors` over the blocks that end where a block starts.
    unfoldable pub falling_loop :
        ℕ → VivWorkspace I L → ℕ → List CodeBlock → List ℕ → Option (List ℕ)
    falling_loop k ws va [] predecessors = some predecessors
    falling_loop k ws va (b ∷ bs) predecessors =
        elim (if block_end b == va
          then Option.map (λ r. if or_not r then push_new b.va predecessors else predecessors)
              (block_falls_through k ws b.va)
          else some predecessors) [ none ↦ none | some found ↦ falling_loop k ws va bs found ]

    -- `get_block_predecessors`.
    unfoldable pub get_block_predecessors : ℕ → VivWorkspace I L → ℕ → Option (List ℕ)
    get_block_predecessors k ws block_va = elim (I.find block_va ws.codeblocks) [
      | none ↦ some []
      | some b ↦
          falling_loop k ws b.va (values_of I ws.codeblocks)
            (sources_loop (values_of I ws.codeblocks) (get_xrefs_to ws.xrefs b.va) [])
    ]
