-- ===== src/Vstruct/Number.antt =====
-- src/vstruct/primitives.rs: `VNumber`, an integer of a number of bytes. The functions of the crate
-- `byteorder`, which read and write the sizes 2, 4 and 8, are an interface. A shift by 64 or more takes
-- its amount modulo 64, as in a release build.
pub mod Loops
pub mod RoundTrip
pub mod Values
mod Tests
use vivisect_rs.Base.{
  ℕ, zero, suc, ◌+◌, ◌*◌, ◌/◌, ◌%◌, ◌^◌, ◌<◌, ◌≡◌, Bool, String, List, [], ◌∷◌, ltb, ◌==◌,
  if◌then◌else◌, not, ◌&&◌, ◌||◌, length, take, drop, bit_and, bit_or, decimal,
}
use Prim.Native.String.{◌++◌}
use vivisect_rs.Word.{u64_mod, wrapping_add, wrapping_sub, wrapping_shl}
use vivisect_rs.Error.{VivResult, ok, err, parse_error}
use vivisect_rs.Memory.Image.{Endian, is_big}

-- `ByteOrder::read_u16`, `read_u32`, `read_u64` and their `write_` functions, by the number of bytes,
-- with what the crate documents: as many bytes as asked for, and an integer is read back.
pub record ByteOrder : Type 0 where
  pub read : Endian → ℕ → List ℕ → ℕ
  pub write : Endian → ℕ → ℕ → List ℕ
  pub length-write : (e : Endian) (size n : ℕ) → length (write e size n) ≡ size
  pub read-write : (e : Endian) (size n : ℕ) → n < 256 ^ size → read e size (write e size n) ≡ n

-- `struct VNumber`.
pub record VNumber : Type 0 where
  pub value : ℕ
  pub size : ℕ
  pub endian : Endian
  pub signed : Bool

-- `VNumber::new`.
abbrev pub new_number : ℕ → Endian → Bool → VNumber
new_number size endian signed = record { value = 0; size = size; endian = endian; signed = signed }

-- `max_value`.
unfoldable pub max_value : VNumber → ℕ
max_value v = wrapping_sub (wrapping_shl 1 (v.size * 8)) 1

-- `set_value` and `with_value`.
unfoldable pub set_value : VNumber → ℕ → VNumber
set_value v n = record v { value = bit_and n (max_value v) }

-- `get_signed_value`, an `i64` as its 64 bits.
unfoldable pub get_signed_value : VNumber → ℕ
get_signed_value v =
    let sign_bit = wrapping_shl 1 (wrapping_sub (v.size * 8) 1) in
    if v.signed && not (bit_and v.value sign_bit == 0)
    then wrapping_sub v.value (wrapping_add (max_value v) 1)
    else v.value

-- The loop of `parse` over the bytes of a big-endian number.
unfoldable pub read_be : ℕ → List ℕ → ℕ
read_be val [] = val
read_be val (b ∷ bs) = read_be (bit_or (wrapping_shl val 8) b) bs

-- The loop over those of a little-endian number, from the index of the first byte.
unfoldable pub read_le : ℕ → ℕ → List ℕ → ℕ
read_le val i [] = val
read_le val i (b ∷ bs) = read_le (bit_or val (wrapping_shl b (i * 8))) (suc i) bs

-- The loop of `emit` over a big-endian buffer, from its end: the bytes before those written so far.
unfoldable pub write_be : ℕ → ℕ → List ℕ → List ℕ
write_be zero val written = written
write_be (suc k) val written = write_be k (val / 2 ^ 8) (bit_and val 255 ∷ written)

-- The loop over a little-endian buffer.
unfoldable pub write_le : ℕ → ℕ → List ℕ
write_le zero val = []
write_le (suc k) val = bit_and val 255 ∷ write_le k (val / 2 ^ 8)

-- The sizes with a function in `byteorder`.
abbrev pub has_function : ℕ → Bool
has_function size = size == 2 || size == 4 || size == 8

-- The only byte of a slice.
abbrev pub first_byte : List ℕ → ℕ
first_byte [] = 0
first_byte (b ∷ bs) = b

abbrev pub read_loop : Endian → List ℕ → ℕ
read_loop e slice = if is_big e then read_be 0 slice else read_le 0 0 slice

abbrev pub write_loop : Endian → ℕ → ℕ → List ℕ
write_loop e size n = if is_big e then write_be size n [] else write_le size n

module _ (order : ByteOrder) where
  -- The value of a slice in `parse`.
  unfoldable pub read_number : Endian → ℕ → List ℕ → ℕ
  read_number e size slice =
      if size == 1
      then first_byte slice
      else if has_function size
      then order.read e size slice
      else read_loop e slice

  -- `parse`: the number and the end of its bytes. The sum of an offset and a size is taken to fit.
  unfoldable pub parse_number : VNumber → List ℕ → ℕ → VivResult (VNumber × ℕ)
  parse_number v bytes offset =
      let end = offset + v.size in
      if ltb (length bytes) end
      then err (parse_error ("Not enough bytes for " ++ (decimal v.size ++ " byte number")))
      else ok
          (record v { value = read_number v.endian v.size (take v.size (drop offset bytes)) }, end)

  -- `emit`.
  unfoldable pub emit_number : VNumber → List ℕ
  emit_number v =
      if v.size == 1
      then bit_and v.value 255 ∷ []
      else if has_function v.size
      then order.write v.endian v.size (v.value % 256 ^ v.size)
      else write_loop v.endian v.size v.value
