-- ===== src/Core/Symbols.antt =====
-- src/core/symbols.rs: the symbol table, a map from addresses to names and one from names to
-- addresses.
pub mod Agreement
mod Tests
use vivisect_rs.Base.{
  ℕ, Bool, Option, none, some, String, List, [], ◌∷◌, if◌then◌else◌, str_eq, is_some, length,
}
use vivisect_rs.BTreeMap.{BTreeMap, get, insert, remove}
use vivisect_rs.HashMap.{NameMap, find_name, drop_name, put_name}

-- `struct SymbolTable`.
pub record SymbolTable : Type 0 where
  pub by_address : BTreeMap String
  pub by_name : NameMap ℕ

-- `SymbolTable::new`.
abbrev pub new_symbols : SymbolTable
new_symbols = record { by_address = []; by_name = [] }

-- `add_symbol`.
unfoldable pub add_symbol : SymbolTable → ℕ → String → SymbolTable
add_symbol t address name = record {
  by_address = insert address name t.by_address;
  by_name = put_name name address t.by_name;
}

-- `remove_by_address`: the table, and the name removed.
unfoldable pub remove_by_address : SymbolTable → ℕ → SymbolTable × Option String
remove_by_address t address = elim (get address t.by_address) [
  | none ↦ (t, none)
  | some name ↦ (
    record { by_address = remove address t.by_address; by_name = drop_name name t.by_name },
    some name,
  )
]

-- `remove_by_name`: the table, and the address removed.
unfoldable pub remove_by_name : SymbolTable → String → SymbolTable × Option ℕ
remove_by_name t name = elim (find_name name t.by_name) [
  | none ↦ (t, none)
  | some address ↦ (
    record { by_address = remove address t.by_address; by_name = drop_name name t.by_name },
    some address,
  )
]

-- `get_name`, `get_address`, `has_address` and `has_name`.
abbrev pub get_name : SymbolTable → ℕ → Option String
get_name t address = get address t.by_address

abbrev pub get_address : SymbolTable → String → Option ℕ
get_address t name = find_name name t.by_name

abbrev pub has_address : SymbolTable → ℕ → Bool
has_address t address = is_some (get_name t address)

abbrev pub has_name : SymbolTable → String → Bool
has_name t name = is_some (get_address t name)
