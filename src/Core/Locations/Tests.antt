-- ===== src/Core/Locations/Tests.antt =====
-- Locations for src/core/locations.rs.
use vivisect_rs.Base.{◌≡◌, refl, none, some, [], ◌∷◌, arith}
use vivisect_rs.Core.Locations.{op, string_type, structure, Location, Locations, get_containing}
use vivisect_rs.Core.Locations.Containing.{scan_locations, get_containing-scan}

abbrev instruction : Location
instruction = record { va = 4096; size = 3; ltype = op; tinfo = none }

abbrev greeting : Location
greeting = record { va = 4100; size = 6; ltype = string_type; tinfo = some "hello" }

abbrev table : Location
table = record { va = 4096; size = 16; ltype = structure; tinfo = none }

abbrev locations : Locations
locations = (4096, instruction) ∷ (4100, greeting) ∷ []

get_containing-scan_example : get_containing locations 4098 ≡ scan_locations locations 4098
get_containing-scan_example =
    get_containing-scan locations 4098
      (refl, omega arith, (omega arith, tt), (refl, omega arith, tt, tt))

-- An address in a gap is in no location.
gap_undefined : get_containing locations 4099 ≡ none
unfolding get_containing
gap_undefined = refl
