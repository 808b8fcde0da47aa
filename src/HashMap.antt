-- ===== src/HashMap.antt =====
-- The standard library's `HashMap` with names as keys, as a list of entries, with the operations that
-- the program uses. Nothing in the development reads the order of the entries.
pub mod Laws
use vivisect_rs.Base.{Option, none, some, String, List, [], ◌∷◌, if◌then◌else◌, str_eq}

abbrev pub NameMap {ℓ} : Type ℓ → Type ℓ
NameMap V = List (String × V)

module _ {ℓ} {V : Type ℓ} where
  -- `get`.
  unfoldable pub find_name : String → NameMap V → Option V
  find_name n [] = none
  find_name n ((k, a) ∷ m) = if str_eq n k then some a else find_name n m

  -- `remove`.
  unfoldable pub drop_name : String → NameMap V → NameMap V
  drop_name n [] = []
  drop_name n ((k, a) ∷ m) = let rest = drop_name n m in if str_eq n k then rest else (k, a) ∷ rest

  -- `insert`.
  abbrev pub put_name : String → V → NameMap V → NameMap V
  put_name n a m = (n, a) ∷ drop_name n m
