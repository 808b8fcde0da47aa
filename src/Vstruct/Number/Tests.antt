-- ===== src/Vstruct/Number/Tests.antt =====
-- src/vstruct/primitives.rs: runs.
use vivisect_rs.Base.{
  ◌+◌, ◌*◌, ◌%◌, ◌^◌, ◌≡◌, true, false, [], ◌∷◌, ◌++◌, arith, ◌==◌, if◌then◌else◌,
}
use vivisect_rs.Error.{ok}
use vivisect_rs.Memory.Image.{Endian}
use vivisect_rs.Vstruct.BitField.{read_order, write_order}
use vivisect_rs.Vstruct.BitField.RoundTrip.{length-write_order, read_order-write_order}
use vivisect_rs.Vstruct.Number.{
  ByteOrder, VNumber, new_number, set_value, parse_number, emit_number,
}
use vivisect_rs.Vstruct.Number.RoundTrip.{parse_number-emit_number}
use vivisect_rs.Vstruct.Number.Values.{set_value_lem}

-- Bytes by position, in either order.
abbrev by_position : ByteOrder
by_position = record {
  read = λ e size bs. read_order e bs;
  write = write_order;
  length-write = length-write_order;
  read-write = read_order-write_order;
}

-- A big-endian number of 3 bytes.
abbrev three : VNumber
three = record { value = 66051; size = 3; endian = Endian.big; signed = false }

parse_number-emit_number_example :
    parse_number by_position
      (record three { value = 0 })
      ((9 ∷ []) ++ (emit_number by_position three ++ (8 ∷ [])))
      1
    ≡ ok (three, 1 + 3)
parse_number-emit_number_example =
    parse_number-emit_number by_position three (9 ∷ []) (8 ∷ []) 0 (omega arith) (omega arith)
      (omega arith)

set_value_lem_example :
    (set_value (new_number 8 Endian.little false) 7).value ≡ (if 8 == 8 then 0 else 7 % 2 ^ (8 * 8))
set_value_lem_example = set_value_lem (new_number 8 Endian.little false) 7 (omega arith)

abbrev minus_two : VNumber
minus_two = record { value = 254; size = 1; endian = Endian.little; signed = true }
