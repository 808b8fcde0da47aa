-- ===== src/Core/Workspace/Setters.antt =====
-- src/core/workspace.rs: memory, file metadata, the setters of a restored workspace, sets of addresses and
-- listeners.
use vivisect_rs.Base.{
  ℕ, ◌+◌, ◌%◌, ◌^◌, Bool, not, Option, none, some, String, List, [], ◌∷◌, ◌++◌, ◌==◌, if◌then◌else◌,
  any, keep, text_append, unwrap_or,
}
use vivisect_rs.HashMap.{find_name, drop_name, put_name}
use vivisect_rs.IndexMap.{IndexMaps}
use vivisect_rs.Error.{VivResult, ok, ◌>>=◌}
use vivisect_rs.Memory.Object.{write_memory}
use vivisect_rs.Memory.Image.{Endian, map_verbatim}
use vivisect_rs.Core.Records.{Architecture, Segment, FileInfo, VaSet}
use vivisect_rs.Core.Workspace.{VivWorkspace, bump}

-- `Vec::contains`.
abbrev pub has_va : ℕ → List ℕ → Bool
has_va va xs = any (λ x. x == va) xs

-- `format!("{}:{}", filename, key)`.
abbrev pub file_key : String → String → String
file_key filename key = text_append filename (text_append ":" key)

module _ {I : IndexMaps} {L : Type 0} where
  -- `write_memory`, `get_file_meta` and `set_file_meta`.
  unfoldable pub write_image : VivWorkspace I L → ℕ → List ℕ → VivResult (VivWorkspace I L)
  write_image ws va chunk = write_memory ws.image.mem va chunk >>= λ mem.
      ok (record ws { image = record ws.image { mem = mem } })

  unfoldable pub get_file_meta : VivWorkspace I L → String → String → Option String
  get_file_meta ws filename key = find_name (file_key filename key) ws.meta

  unfoldable pub set_file_meta : VivWorkspace I L → String → String → String → VivWorkspace I L
  set_file_meta ws filename key value = record ws {
    meta = put_name (file_key filename key) value ws.meta;
  }

  -- `set_architecture`, `set_endian` and `add_memory_region`.
  unfoldable pub set_architecture : VivWorkspace I L → Architecture → VivWorkspace I L
  set_architecture ws arch = record ws { arch = arch; generation = bump ws.generation }

  unfoldable pub set_endian : VivWorkspace I L → Endian → VivWorkspace I L
  set_endian ws endian = record ws {
    image = record ws.image { endian = endian };
    generation = bump ws.generation;
  }

  unfoldable pub add_memory_region :
      VivWorkspace I L → ℕ → List ℕ → ℕ → Option String → VivResult (VivWorkspace I L)
  add_memory_region ws base bytes perms name =
      map_verbatim ws.image base bytes perms name >>= λ image.
      ok (record ws { image = image; generation = bump ws.generation })

  -- `add_segment`, `add_file` and `add_entry_point`.
  unfoldable pub add_segment : VivWorkspace I L → Segment → VivWorkspace I L
  add_segment ws seg = record ws {
    segments = ws.segments ++ (seg ∷ []);
    generation = bump ws.generation;
  }

  unfoldable pub add_file : VivWorkspace I L → FileInfo → VivWorkspace I L
  add_file ws file = record ws { files = ws.files ++ (file ∷ []); generation = bump ws.generation }

  unfoldable pub add_entry_point : VivWorkspace I L → ℕ → VivWorkspace I L
  add_entry_point ws va = if has_va va ws.entry_points then ws else record ws {
    entry_points = ws.entry_points ++ (va ∷ []);
    generation = bump ws.generation;
  }

  -- `add_va_set`, `get_va_set`, `set_va_set_row`, `get_va_set_rows` and `del_va_set`.
  unfoldable pub add_va_set : VivWorkspace I L → String → List (String × String) → VivWorkspace I L
  add_va_set ws name columns = elim (find_name name ws.va_sets) [
    | some set ↦ ws
    | none ↦ record ws {
      va_sets = put_name name (record { columns = columns; rows = I.empty }) ws.va_sets;
    }
  ]

  abbrev pub get_va_set : VivWorkspace I L → String → Option (VaSet I)
  get_va_set ws name = find_name name ws.va_sets

  unfoldable pub set_va_set_row : VivWorkspace I L → String → ℕ → List String → VivWorkspace I L
  set_va_set_row ws name va row =
      let set = unwrap_or (find_name name ws.va_sets) (record { columns = []; rows = I.empty }) in
      record ws { va_sets = put_name name (record set { rows = I.put va row set.rows }) ws.va_sets }

  unfoldable pub get_va_set_rows : VivWorkspace I L → String → List (ℕ × List String)
  get_va_set_rows ws name = elim (find_name name ws.va_sets) [
    | none ↦ []
    | some set ↦ I.entries set.rows
  ]

  unfoldable pub del_va_set : VivWorkspace I L → String → VivWorkspace I L
  del_va_set ws name = record ws { va_sets = drop_name name ws.va_sets }

  -- `add_event_listener`: the workspace, and the id of the listener, a `u32`; and
  -- `remove_event_listener`.
  unfoldable pub add_event_listener : VivWorkspace I L → L → VivWorkspace I L × ℕ
  add_event_listener ws callback = (
    record ws {
      next_listener_id = (ws.next_listener_id + 1) % 2 ^ 32;
      event_listeners = ws.event_listeners ++ ((ws.next_listener_id, callback) ∷ []);
    },
    ws.next_listener_id,
  )

  unfoldable pub remove_event_listener : VivWorkspace I L → ℕ → VivWorkspace I L
  remove_event_listener ws id = record ws {
    event_listeners = keep (λ l. not (l.0 == id)) ws.event_listeners;
  }
