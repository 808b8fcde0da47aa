-- ===== src/Vstruct/Text.antt =====
-- src/vstruct/primitives.rs: byte arrays and strings. A `&str` is its bytes, and `get_string` stops
-- before the conversion of the bytes to text. `none` stands for a panic.
pub mod RoundTrip
mod Tests
use vivisect_rs.Base.{
  ℕ, zero, suc, ◌+◌, ◌-◌, ◌%◌, Bool, Option, none, some, String, List, [], ◌∷◌, ltb, ◌==◌,
  if◌then◌else◌, not, length, take, drop, replicate, decimal,
}
use mathlib.Core.List.{◌++◌}
use Prim.Native.String.{◌++◌ as ◌◁◌}
use vivisect_rs.Error.{VivResult, ok, err, parse_error}

-- `struct VBytes` and `struct VStr`, which have the same fields.
pub record VBytes : Type 0 where
  pub value : List ℕ
  pub size : ℕ

-- `VBytes::new` and `VStr::new`, and `from_bytes`.
abbrev pub new_bytes : ℕ → VBytes
new_bytes size = record { value = replicate size 0; size = size }

abbrev pub from_bytes : List ℕ → VBytes
from_bytes bs = record { value = bs; size = length bs }

-- `Vec::resize` with zeros.
abbrev pub resize : ℕ → List ℕ → List ℕ
resize size bs = take size bs ++ replicate (size - length bs) 0

-- `VBytes::set_value`.
unfoldable pub set_bytes : VBytes → List ℕ → VivResult VBytes
set_bytes v bs =
    if length bs == v.size
    then ok (record v { value = bs })
    else err (
        parse_error (
          "v_bytes field set to wrong length: expected "
          ◁ (decimal v.size ◁ (", got " ◁ decimal (length bs)))))

-- `VBytes::set_size`.
unfoldable pub set_size : VBytes → ℕ → VBytes
set_size v size = record { value = resize size v.value; size = size }

-- `parse` of `VBytes` and `VStr`, by the word of the message; the sum of an offset and a size is taken
-- to fit in 64 bits.
unfoldable pub parse_bytes : String → VBytes → List ℕ → ℕ → VivResult (VBytes × ℕ)
parse_bytes kind v bytes offset =
    let end = offset + v.size in
    if ltb (length bytes) end
    then err (parse_error ("Not enough bytes for " ◁ (decimal v.size ◁ (" byte " ◁ kind))))
    else ok (record v { value = take v.size (drop offset bytes) }, end)

-- `VStr::set_string`.
unfoldable pub set_string : VBytes → List ℕ → VBytes
set_string v s = record v { value = resize v.size (take v.size s) }

-- `position` of a zero byte.
unfoldable pub null_position : List ℕ → Option ℕ
null_position [] = none
null_position (b ∷ bs) =
    let rest = null_position bs in
    if b == 0 then some 0 else elim rest [ none ↦ none | some i ↦ some (suc i) ]

-- The bytes that `get_string` converts, of `VStr` and of `VZStr`.
unfoldable pub string_bytes : List ℕ → List ℕ
string_bytes bs = elim (null_position bs) [ none ↦ bs | some i ↦ take i bs ]

-- `struct VzStr`.
pub record VzStr : Type 0 where
  pub value : List ℕ
  pub align : ℕ

-- `VZStr::new` and `with_align`.
abbrev pub with_align : ℕ → VzStr
with_align align = record { value = 0 ∷ []; align = align }

-- The zeros after a text of so many bytes.
abbrev pub padding : ℕ → ℕ → ℕ
padding align n = align - n % align

-- `VZStr::set_string`; the remainder by an alignment of 0 is a panic.
unfoldable pub set_zstring : VzStr → List ℕ → Option VzStr
set_zstring z s =
    if z.align == 0
    then none
    else some (record z { value = s ++ replicate (padding z.align (length s)) 0 })

-- The end of `VZStr::parse`, from the place of the terminator.
unfoldable pub parse_aligned : VzStr → List ℕ → ℕ → ℕ → Option (VivResult (VzStr × ℕ))
parse_aligned z bytes offset null_pos =
    let diff = padding z.align null_pos in
    if z.align == 0
    then none
    else if ltb (length bytes) (offset + null_pos + diff)
    then some (err (parse_error "Not enough bytes for aligned zstr"))
    else some (
        ok (
          record z { value = take (null_pos + diff) (drop offset bytes) },
          offset + null_pos + diff,
        ))

-- `VZStr::parse`; a slice from past the end is a panic.
unfoldable pub parse_zstring : VzStr → List ℕ → ℕ → Option (VivResult (VzStr × ℕ))
parse_zstring z bytes offset =
    if ltb (length bytes) offset then none else elim (null_position (drop offset bytes)) [
      | none ↦ some (err (parse_error "v_zstr found no NULL terminator"))
      | some null_pos ↦ parse_aligned z bytes offset null_pos
    ]
