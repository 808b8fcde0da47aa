-- ===== src/Core/Locations.antt =====
-- src/core/locations.rs: the defined locations of a workspace, by start address. Sums of an address
-- and a size wrap, as in a release build.
pub mod Containing
pub mod Stats
mod Tests
use vivisect_rs.Base.{
  ℕ, ◌+◌, ◌%◌, Bool, true, false, ◌&&◌, ◌||◌, Option, none, some, String, List, [], ◌∷◌, ◌++◌, ◌==◌,
  ltb, leb, if◌then◌else◌, is_some, length, keep,
}
use vivisect_rs.Word.{u64_mod}
use vivisect_rs.BTreeMap.{BTreeMap, get, insert, remove, range, values}

-- `enum LocationType`.
pub data LocationType : Type 0 where
  undefined number string_type unicode pointer op structure clsid vf_table import_type pad :
      LocationType

-- The numbers of the variants.
unfoldable pub type_number : LocationType → ℕ
type_number undefined = 0
type_number number = 1
type_number string_type = 2
type_number unicode = 3
type_number pointer = 4
type_number op = 5
type_number structure = 6
type_number clsid = 7
type_number vf_table = 8
type_number import_type = 9
type_number pad = 10

-- `struct Location`.
pub record Location : Type 0 where
  pub va : ℕ
  pub size : ℕ
  pub ltype : LocationType
  pub tinfo : Option String

-- `Location::end`, `contains` and `overlaps`.
abbrev pub location_end : Location → ℕ
location_end l = (l.va + l.size) % u64_mod

abbrev pub covers_addr : Location → ℕ → Bool
covers_addr l addr = leb l.va addr && ltb addr (location_end l)

abbrev pub meets : Location → Location → Bool
meets l other = ltb l.va (location_end other) && ltb other.va (location_end l)

-- `struct LocationManager`.
abbrev pub Locations : Type 0
Locations = BTreeMap Location

-- `add`, and `add_location`.
unfoldable pub add : Locations → Location → Locations
add m l = insert l.va l m

unfoldable pub add_location : Locations → ℕ → ℕ → LocationType → Option String → Locations
add_location m va size ltype tinfo =
    insert va (record { va = va; size = size; ltype = ltype; tinfo = tinfo }) m

-- `range(..=addr).rev()`: the locations that start up to an address, the last one first.
abbrev pub up_to : ℕ → Locations → List Location
up_to addr [] = []
up_to addr ((k, l) ∷ m) = if leb k addr then up_to addr m ++ (l ∷ []) else []

-- The loop of `get_containing`, with its early end.
abbrev pub containing_loop : ℕ → List Location → Option Location
containing_loop addr [] = none
containing_loop addr (l ∷ ls) =
    if covers_addr l addr
    then some l
    else if leb (location_end l) addr
    then none
    else containing_loop addr ls

-- `get_containing`, and `is_defined`.
unfoldable pub get_containing : Locations → ℕ → Option Location
get_containing m addr = containing_loop addr (up_to addr m)

unfoldable pub is_defined : Locations → ℕ → Bool
is_defined m addr = is_some (get_containing m addr)

-- `get_range`, where `none` is the panic of `range` on a start after the end; and `get_by_type`.
unfoldable pub get_range : Locations → ℕ → ℕ → Option (List Location)
get_range m start stop = if ltb stop start then none else some (range start stop m)

abbrev pub has_type : LocationType → Location → Bool
has_type t l = type_number l.ltype == type_number t

unfoldable pub get_by_type : Locations → LocationType → List Location
get_by_type m t = keep (has_type t) (values m)

-- The filter of `get_data`.
abbrev pub is_data : Location → Bool
is_data l = has_type number l || has_type pointer l || has_type structure l

unfoldable pub get_data : Locations → List Location
get_data m = keep is_data (values m)

-- `struct LocationStats`.
pub record LocationStats : Type 0 where
  pub total : ℕ
  pub instructions : ℕ
  pub strings : ℕ
  pub numbers : ℕ
  pub pointers : ℕ
  pub structs : ℕ
  pub other : ℕ
  pub total_bytes : ℕ

abbrev pub default_stats : LocationStats
default_stats = record {
  total = 0;
  instructions = 0;
  strings = 0;
  numbers = 0;
  pointers = 0;
  structs = 0;
  other = 0;
  total_bytes = 0;
}

-- The `match` of `stats`.
abbrev pub count_type : LocationType → LocationStats → LocationStats
count_type op s = record s { instructions = s.instructions + 1 }
count_type string_type s = record s { strings = s.strings + 1 }
count_type number s = record s { numbers = s.numbers + 1 }
count_type pointer s = record s { pointers = s.pointers + 1 }
count_type structure s = record s { structs = s.structs + 1 }
count_type undefined s = record s { other = s.other + 1 }
count_type unicode s = record s { other = s.other + 1 }
count_type clsid s = record s { other = s.other + 1 }
count_type vf_table s = record s { other = s.other + 1 }
count_type import_type s = record s { other = s.other + 1 }
count_type pad s = record s { other = s.other + 1 }

-- The loop of `stats`, and `stats`.
unfoldable pub stats_loop : List Location → LocationStats → LocationStats
stats_loop [] s = s
stats_loop (l ∷ ls) s =
    let counted = count_type l.ltype s in
    stats_loop ls (record counted { total_bytes = (counted.total_bytes + l.size) % u64_mod })

unfoldable pub stats : Locations → LocationStats
stats m = record (stats_loop (values m) default_stats) { total = length m }
