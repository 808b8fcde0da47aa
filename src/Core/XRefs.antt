-- ===== src/Core/XRefs.antt =====
-- src/core/xrefs.rs: cross-references between addresses, in two maps. A `HashMap` is a map with the
-- operations of the ordered one; nothing here reads the order of its entries.
pub mod Tally
pub mod Mirror
pub mod Counted
mod Tests
use vivisect_rs.Base.{
  ℕ, zero, suc, ◌+◌, ◌-◌, ◌%◌, Bool, true, false, ◌&&◌, Option, none, some, List, [], ◌∷◌, ◌++◌,
  ◌==◌, if◌then◌else◌, any, is_some, unwrap_or, ◌≡◌, refl, arith, ◌↔◌,
}
use vivisect_rs.Word.{u64_mod, wrapping_sub}
use vivisect_rs.BTreeMap.{BTreeMap, get, insert}

-- `enum RefType`.
pub data RefType : Type 0 where
  code data_ref pointer : RefType

-- The numbers of `repr(u8)`.
abbrev pub discriminant : RefType → ℕ
discriminant code = 1
discriminant data_ref = 2
discriminant pointer = 3

abbrev pub References : Type 0
References = List (ℕ × RefType)

-- `struct XRefManager`.
pub record XRefManager : Type 0 where
  pub to_map : BTreeMap References
  pub from_map : BTreeMap References
  pub count : ℕ

abbrev pub new_xrefs : XRefManager
new_xrefs = record { to_map = []; from_map = []; count = 0 }

-- The test `f == from && t == ref_type`.
unfoldable pub is_ref : ℕ → RefType → ℕ × RefType → Bool
is_ref a r (b, s) = b == a && discriminant s == discriminant r

-- `entry(key).or_default()`, read.
abbrev pub refs_at : ℕ → BTreeMap References → References
refs_at key m = unwrap_or (get key m) []

-- `add_xref`.
unfoldable pub add_xref : XRefManager → ℕ → ℕ → RefType → XRefManager
add_xref m from to r = if any (is_ref from r) (refs_at to m.to_map) then m else record {
  to_map = insert to (refs_at to m.to_map ++ ((from, r) ∷ [])) m.to_map;
  from_map = insert from (refs_at from m.from_map ++ ((to, r) ∷ [])) m.from_map;
  count = (m.count + 1) % u64_mod;
}

-- `Iterator::position`, for the test `is_ref`.
abbrev pub position : ℕ → RefType → References → Option ℕ
position a r [] = none
position a r (x ∷ xs) =
    if is_ref a r x then some 0 else elim (position a r xs) [ none ↦ none | some i ↦ some (suc i) ]

-- `Vec::remove`.
abbrev pub remove_at : ℕ → References → References
remove_at i [] = []
remove_at zero (x ∷ xs) = xs
remove_at (suc i) (x ∷ xs) = x ∷ remove_at i xs

-- The map without the first matching reference of a key, if there is one.
abbrev pub remove_ref : ℕ → ℕ → RefType → BTreeMap References → Option (BTreeMap References)
remove_ref key a r m = elim (get key m) [
  | none ↦ none
  | some refs ↦ elim (position a r refs) [
    | none ↦ none
    | some i ↦ some (insert key (remove_at i refs) m)
  ]
]

-- `remove_xref`.
unfoldable pub remove_xref : XRefManager → ℕ → ℕ → RefType → XRefManager
remove_xref m from to r = record {
  to_map = unwrap_or (remove_ref to from r m.to_map) m.to_map;
  from_map = unwrap_or (remove_ref from to r m.from_map) m.from_map;
  count = if is_some (remove_ref to from r m.to_map) then wrapping_sub m.count 1 else m.count;
}

-- `get_xrefs_to` and `get_xrefs_from`.
abbrev pub get_xrefs_to : XRefManager → ℕ → References
get_xrefs_to m va = refs_at va m.to_map

abbrev pub get_xrefs_from : XRefManager → ℕ → References
get_xrefs_from m va = refs_at va m.from_map
