-- ===== src/Core/Symbols/Tests.antt =====
-- A table of one symbol for src/core/symbols.rs.
use vivisect_rs.Base.{refl}
use vivisect_rs.BTreeMap.{get}
use vivisect_rs.HashMap.{find_name}
use vivisect_rs.Core.Symbols.{SymbolTable, new_symbols, add_symbol}
use vivisect_rs.Core.Symbols.Agreement.{IsConsistent, add_symbol-IsConsistent}

new_symbols-IsConsistent : IsConsistent new_symbols
unfolding get find_name
new_symbols-IsConsistent = record { sorted = tt; named = λ a n h. cc; placed = λ n a h. cc }

abbrev start_only : SymbolTable
start_only = add_symbol new_symbols 4096 "start"

start_only-IsConsistent : IsConsistent start_only
unfolding get find_name
start_only-IsConsistent =
    add_symbol-IsConsistent new_symbols 4096 "start" new_symbols-IsConsistent refl refl
