-- ===== src/Core/Workspace/Changes.antt =====
-- src/core/workspace.rs: the calls that change a workspace, as data, and sequences of them. The loading
-- of a PE or an ELF file and `get_function_mut`, which lends the metadata of a function, are not among
-- them; a Mach-O file is loaded as one that was read, since an error of the reader changes nothing.
use vivisect_rs.Base.{
  ℕ, Option, String, List, [], ◌∷◌, ◌++◌, Bool, true, false, if◌then◌else◌, none, some,
}
use vivisect_rs.Error.{VivError, VivResult, ok, err, ◌>>=◌}
use vivisect_rs.Memory.Image.{Endian}
use vivisect_rs.Core.XRefs.{RefType}
use vivisect_rs.Core.Locations.{LocationType}
use vivisect_rs.IndexMap.{IndexMaps}
use vivisect_rs.Core.Workspace.{
  VivWorkspace, add_function, drain_pending_functions, set_function_name, add_location,
  add_codeblock, set_name, add_reference, set_comment, set_meta, add_noreturn_va,
}
use vivisect_rs.Core.Records.{Architecture, FunctionMeta, Segment, FileInfo}
use vivisect_rs.Core.Workspace.Loading.{MachOParser, load_macho}
use vivisect_rs.Core.Workspace.Setters.{
  write_image, set_file_meta, set_architecture, set_endian, add_memory_region, add_segment,
  add_file, add_entry_point, add_va_set, set_va_set_row, del_va_set, add_event_listener,
  remove_event_listener,
}

pub data Change (L : Type 0) : Type 0 where
  to_add_function : ℕ → FunctionMeta → Change L
  to_drain : Change L
  to_set_function_name : ℕ → String → Change L
  to_add_location : ℕ → ℕ → LocationType → Option String → Change L
  to_add_codeblock : ℕ → ℕ → ℕ → Change L
  to_set_name : ℕ → String → Change L
  to_add_xref : ℕ → ℕ → RefType → Change L
  to_set_comment : ℕ → String → Change L
  to_set_meta : String → String → Change L
  to_add_noreturn_va : ℕ → Change L
  to_write_memory : ℕ → List ℕ → Change L
  to_set_file_meta : String → String → String → Change L
  to_set_architecture : Architecture → Change L
  to_set_endian : Endian → Change L
  to_add_memory_region : ℕ → List ℕ → ℕ → Option String → Change L
  to_add_segment : Segment → Change L
  to_add_file : FileInfo → Change L
  to_add_entry_point : ℕ → Change L
  to_add_va_set : String → List (String × String) → Change L
  to_set_va_set_row : String → ℕ → List String → Change L
  to_del_va_set : String → Change L
  to_add_listener : L → Change L
  to_remove_listener : ℕ → Change L
  to_load_macho : (macho : MachOParser) → (filename md5 : String) → Change L

module _ {I : IndexMaps} {L : Type 0} where
  -- An error leaves the workspace as it was.
  abbrev pub or_same : VivWorkspace I L → VivResult (VivWorkspace I L) → VivWorkspace I L
  or_same ws (ok ws') = ws'
  or_same ws (err e) = ws

  -- The workspace after a call.
  abbrev pub change : VivWorkspace I L → Change L → VivWorkspace I L
  change ws (to_add_function va m) = or_same ws (add_function ws va m)
  change ws to_drain = (drain_pending_functions ws).0
  change ws (to_set_function_name va name) = set_function_name ws va name
  change ws (to_add_location va size ltype tinfo) = add_location ws va size ltype tinfo
  change ws (to_add_codeblock va size func_va) = add_codeblock ws va size func_va
  change ws (to_set_name va name) = set_name ws va name
  change ws (to_add_xref from to r) = add_reference ws from to r
  change ws (to_set_comment va comment) = set_comment ws va comment
  change ws (to_set_meta key value) = set_meta ws key value
  change ws (to_add_noreturn_va va) = add_noreturn_va ws va
  change ws (to_write_memory va chunk) = or_same ws (write_image ws va chunk)
  change ws (to_set_file_meta filename key value) = set_file_meta ws filename key value
  change ws (to_set_architecture arch) = set_architecture ws arch
  change ws (to_set_endian endian) = set_endian ws endian
  change ws (to_add_memory_region base bytes perms name) =
      or_same ws (add_memory_region ws base bytes perms name)
  change ws (to_add_segment seg) = add_segment ws seg
  change ws (to_add_file file) = add_file ws file
  change ws (to_add_entry_point va) = add_entry_point ws va
  change ws (to_add_va_set name columns) = add_va_set ws name columns
  change ws (to_set_va_set_row name va row) = set_va_set_row ws name va row
  change ws (to_del_va_set name) = del_va_set ws name
  change ws (to_add_listener callback) = (add_event_listener ws callback).0
  change ws (to_remove_listener id) = remove_event_listener ws id
  change ws (to_load_macho macho filename md5) = load_macho ws macho filename md5

  -- What a call to `drain_pending_functions` hands out.
  abbrev pub handed_out : VivWorkspace I L → Change L → List ℕ
  handed_out ws to_drain = (drain_pending_functions ws).1
  handed_out ws c = []

  -- The workspace after a sequence of calls, and all that was handed out, in order.
  abbrev pub run_changes : VivWorkspace I L → List (Change L) → VivWorkspace I L
  run_changes ws [] = ws
  run_changes ws (c ∷ cs) = run_changes (change ws c) cs

  abbrev pub all_handed_out : VivWorkspace I L → List (Change L) → List ℕ
  all_handed_out ws [] = []
  all_handed_out ws (c ∷ cs) = handed_out ws c ++ all_handed_out (change ws c) cs

  -- What holds of the workspace before and after a call, and of both ways of a test in it.
  pub or_same_lem :
      {A : Type 0} (P : VivWorkspace I L → Type 0) (ws : VivWorkspace I L) (r : VivResult A)
      (f : A → VivWorkspace I L)
      → P ws
      → ((a : A) → P (f a))
      → P (or_same ws (r >>= λ a. ok (f a)))
  or_same_lem P ws (ok a) f h each = each a
  or_same_lem P ws (err e) f h each = h

  pub if_lem :
      (P : VivWorkspace I L → Type 0) (b : Bool) (x y : VivWorkspace I L)
      → P x
      → P y
      → P (if b then x else y)
  if_lem P true x y hx hy = hx
  if_lem P false x y hx hy = hy

  pub option_lem :
      {A : Type 0} (P : VivWorkspace I L → Type 0) (o : Option A) (x : A → VivWorkspace I L)
      (y : VivWorkspace I L)
      → ((a : A) → P (x a))
      → P y
      → P (elim o as (λ k. VivWorkspace I L) [ some a ↦ x a | none ↦ y ])
  option_lem P none x y each h = h
  option_lem P (some a) x y each h = each a

  pub err_lem :
      (P : VivWorkspace I L → Type 0) (ws : VivWorkspace I L) (b : Bool) (ws' : VivWorkspace I L)
      (e : VivError)
      → P ws
      → P ws'
      → P (or_same ws (if b then err e else ok ws'))
  err_lem P ws true ws' e h h' = h
  err_lem P ws false ws' e h h' = h'
