-- ===== src/Vstruct/BitField/Tests.antt =====
-- src/vstruct/bitfield.rs: runs.
use vivisect_rs.Base.{◌%◌, ◌^◌, ◌≡◌, refl, some, [], ◌∷◌, arith}
use vivisect_rs.Error.{ok}
use vivisect_rs.HashMap.{find_name}
use vivisect_rs.Memory.Image.{Endian}
use vivisect_rs.Vstruct.BitField.{BitField, new_bit_field, define_field, get_field, set_field}
use vivisect_rs.Vstruct.BitField.Layout.{IsValid, define_field-IsValid, get_field-set_field}

-- A field of 3 bits at bit 0 and one of 4 bits at bit 4, in 2 bytes.
abbrev flags : BitField
flags = record {
  value = 0;
  size = 2;
  endian = Endian.little;
  fields = ("mode", (4, 4)) ∷ ("level", (0, 3)) ∷ [];
}

abbrev level_only : BitField
level_only = record { value = 0; size = 2; endian = Endian.little; fields = ("level", (0, 3)) ∷ [] }

empty-IsValid : IsValid (new_bit_field 2 Endian.little)
unfolding find_name
empty-IsValid = record {
  size_fits = omega arith;
  value_fits = omega arith;
  fields_fit = λ name o w h. absurd (ground (arith, h));
}

level_defined : define_field (new_bit_field 2 Endian.little) "level" 0 3 ≡ ok level_only
unfolding define_field vivisect_rs.HashMap.drop_name
level_defined = refl

mode_defined : define_field level_only "mode" 4 4 ≡ ok flags
unfolding define_field vivisect_rs.HashMap.drop_name
mode_defined = refl

level_only-IsValid : IsValid level_only
level_only-IsValid =
    define_field-IsValid (new_bit_field 2 Endian.little) "level" 0 3 empty-IsValid (omega arith)
      level_defined

flags-IsValid : IsValid flags
flags-IsValid =
    define_field-IsValid level_only "mode" 4 4 level_only-IsValid (omega arith) mode_defined

level_found : find_name "level" flags.fields ≡ some (0, 3)
unfolding find_name
level_found = refl

mode_found : find_name "mode" flags.fields ≡ some (4, 4)
unfolding find_name
mode_found = refl

get_field-set_field_example :
    (b' : BitField) × (set_field flags "mode" 21 ≡ ok b')
    × (get_field b' "mode" ≡ some (21 % 2 ^ 4))
get_field-set_field_example =
    get_field-set_field flags "mode" 21 4 4 flags-IsValid mode_found (omega arith) (omega arith)
