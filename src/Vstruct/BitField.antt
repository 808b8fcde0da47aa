-- ===== src/Vstruct/BitField.antt =====
-- src/vstruct/bitfield.rs: named fields of bits in an integer. A shift by 64 or more takes its amount
-- modulo 64, and sums wrap, as in a release build; in `parse`, the sum of an offset and a size is taken
-- to fit in 64 bits.
pub mod Fields
pub mod Layout
pub mod RoundTrip
mod Tests
use vivisect_rs.Base.{
  ℕ, ◌+◌, ◌*◌, ◌%◌, Bool, Option, none, some, String, List, [], ◌∷◌, ltb, ◌==◌, if◌then◌else◌, ◌||◌,
  length, take, drop, bit_and, bit_or, decimal, replicate,
}
use Prim.Native.String.{◌++◌}
use vivisect_rs.Word.{u64_mod, wrapping_sub, wrapping_shl, wrapping_shr, not_u64}
use vivisect_rs.Error.{VivResult, ok, err, parse_error}
use vivisect_rs.HashMap.{NameMap, find_name, put_name}
use vivisect_rs.Memory.Image.{Endian, is_big, from_le_bytes, from_be_bytes, to_le_bytes}
use vivisect_rs.Memory.Image.Order.{reversed}

-- `struct BitField`. A field has its offset and its width in bits.
pub record BitField : Type 0 where
  pub value : ℕ
  pub size : ℕ
  pub endian : Endian
  pub fields : NameMap (ℕ × ℕ)

-- `BitField::new`.
abbrev pub new_bit_field : ℕ → Endian → BitField
new_bit_field size endian = record { value = 0; size = size; endian = endian; fields = [] }

-- The message of `define_field`.
abbrev pub exceeds : String → ℕ → ℕ → ℕ → String
exceeds name offset width bits =
    "Field "
    ++ (name
        ++ (" exceeds bitfield size: offset "
            ++ (decimal offset
                ++ (" + width " ++ (decimal width ++ (" > " ++ (decimal bits ++ " bits")))))))

-- `define_field`.
unfoldable pub define_field : BitField → String → ℕ → ℕ → VivResult BitField
define_field b name bit_offset bit_width =
    let bits = (b.size * 8) % u64_mod in
    if ltb bits ((bit_offset + bit_width) % u64_mod)
    then err (parse_error (exceeds name bit_offset bit_width bits))
    else ok (record b { fields = put_name name (bit_offset, bit_width) b.fields })

-- `(1u64 << width) - 1`.
abbrev pub field_mask : ℕ → ℕ
field_mask width = wrapping_sub (wrapping_shl 1 width) 1

-- `get_field`.
unfoldable pub get_field : BitField → String → Option ℕ
get_field b name = elim (find_name name b.fields) [
  | none ↦ none
  | some (offset, width) ↦ some (bit_and (wrapping_shr b.value offset) (field_mask width))
]

-- The new value of `set_field`.
unfoldable pub put_bits : ℕ → ℕ → ℕ → ℕ → ℕ
put_bits old offset width new =
    let mask = field_mask width in
    bit_or (bit_and old (not_u64 (wrapping_shl mask offset)))
      (wrapping_shl (bit_and new mask) offset)

-- `set_field`.
unfoldable pub set_field : BitField → String → ℕ → VivResult BitField
set_field b name new = elim (find_name name b.fields) [
  | none ↦ err (parse_error ("Unknown field: " ++ name))
  | some (offset, width) ↦ ok (record b { value = put_bits b.value offset width new })
]

-- `set_value`.
unfoldable pub set_raw : BitField → ℕ → BitField
set_raw b new = record b { value = bit_and new (field_mask (b.size * 8)) }

-- The sizes that `parse` and `emit` support.
abbrev pub is_supported : ℕ → Bool
is_supported size = size == 1 || size == 2 || size == 4 || size == 8

-- `from_le_bytes` or `from_be_bytes` of a slice, and `to_le_bytes` or `to_be_bytes` of an integer.
abbrev pub read_order : Endian → List ℕ → ℕ
read_order Endian.little bs = from_le_bytes bs
read_order Endian.big bs = from_be_bytes bs

abbrev pub write_order : Endian → ℕ → ℕ → List ℕ
write_order Endian.little count n = to_le_bytes count n
write_order Endian.big count n = reversed (to_le_bytes count n)

-- `parse`: the bit field and the end of its bytes.
unfoldable pub parse_bits : BitField → List ℕ → ℕ → VivResult (BitField × ℕ)
parse_bits b bytes offset =
    if ltb (length bytes) (offset + b.size)
    then err (parse_error ("Not enough bytes for " ++ (decimal b.size ++ " byte bitfield")))
    else if is_supported b.size
    then ok (
      record b { value = read_order b.endian (take b.size (drop offset bytes)) },
      offset + b.size,
    )
    else err (parse_error "Unsupported bitfield size")

-- `emit`.
unfoldable pub emit_bits : BitField → List ℕ
emit_bits b =
    if is_supported b.size then write_order b.endian b.size b.value else replicate b.size 0
